-- ===== src/Run/Progress.antt =====
-- What one round of `run_for_us` (waterbox/machine.cpp) buys.
use native.Mathlib.Nat.{mul-le-mul_right, div-add-mod, mod-lt, mod-eq_of_lt, div-le_self}
use chimera_core_eka2l.Prelude.{
  ℕ, suc, ◌+◌, ◌-◌, ◌*◌, ◌/◌, ◌%◌, ◌≤◌, ◌<◌, min, ◌≡◌, refl, sym, ap, ◌∙◌, subst, true, false,
  Option, none, some, List, [], ◌∷◌, ltb, ◌==◌, arith, Bool-cases, ==_iff, ltb→lt, inl, inr,
}
use chimera_core_eka2l.Vclock.{u64, VirtualClock, advance_us, spend_instructions}
use chimera_core_eka2l.Vclock.Exact.{sum}
use chimera_core_eka2l.Run.{u32, Emulator, Machine, cpu_ticks, all_ticks, slice, jump, round}

-- The clock's time in units of an instruction's share of a microsecond.
abbrev pub progress : ℕ → VirtualClock → ℕ
progress r c = c.now_us * r + c.remainder

-- A clock at the rate `r`, with less than a microsecond owed.
pub record IsRunning (r : ℕ) (c : VirtualClock) : Type 0 where
  pub rate : c.instructions_per_second ≡ r
  pub small : c.remainder < r

-- What a purchase of `n` units does.
pub record Bought (r n : ℕ) (c d : VirtualClock) : Type 0 where
  pub running : IsRunning r d
  pub more : progress r d ≡ progress r c + n
  pub near : d.now_us + d.remainder ≤ c.now_us + c.remainder + n

mul_split : (a b r : ℕ) → (a + b) * r ≡ a * r + r * b
mul_split a b r = grind arith

quotient_le : (n d : ℕ) → 0 < d → n / d + n % d ≤ n
quotient_le n d h = grind (arith, div-add-mod n d)

spend-Bought :
    (r n : ℕ) (c : VirtualClock)
    → 0 < r
    → IsRunning r c
    → c.now_us + c.remainder + n * 1000000 < u64
    → Bought r (n * 1000000) c (spend_instructions n c)
unfolding spend_instructions
spend-Bought r n c pos run room =
    let owed : ℕ = c.remainder + n * 1000000 in
    let small : owed % u64 ≡ owed = mod-eq_of_lt (omega arith) in
    let d = spend_instructions n c in
    let now : d.now_us ≡ c.now_us + owed / r =
      ap (λ t. (c.now_us + t / c.instructions_per_second) % u64) small
      ∙ ap (λ t. (c.now_us + owed / t) % u64) run.rate
      ∙ mod-eq_of_lt (omega (arith, div-le_self owed r)) in
    let left : d.remainder ≡ owed % r =
      ap (λ t. t % c.instructions_per_second) small ∙ ap (λ t. owed % t) run.rate in
    record {
      running = record { rate = run.rate; small = omega (arith, left, mod-lt owed pos) };
      more =
          ap (λ t. t * r + d.remainder) now
          ∙ ap (λ t. (c.now_us + owed / r) * r + t) left
          ∙ omega (arith, mul_split c.now_us (owed / r) r, div-add-mod owed r);
      near = omega (arith, now, left, quotient_le owed r pos);
    }

all_ticks-Bought {ℓ} :
    {W : Type ℓ} (r : ℕ) (m : Machine W) (reports : List ℕ)
    → 0 < r
    → IsRunning r m.clock
    → m.clock.now_us + m.clock.remainder + sum reports * 1000000 < u64
    → m.slice_instructions + sum reports < u32
    → Bought r (sum reports * 1000000) m.clock (all_ticks m reports).clock
      × ((all_ticks m reports).slice_instructions ≡ m.slice_instructions + sum reports)
unfolding cpu_ticks
all_ticks-Bought r m [] pos run room few =
    (record { running = run; more = omega arith; near = omega arith }, omega arith)
all_ticks-Bought r m (n ∷ reports) pos run room few =
    let first = spend-Bought r n m.clock pos run (omega arith) in
    let counted : (cpu_ticks m n).slice_instructions ≡ m.slice_instructions + n =
      mod-eq_of_lt (omega arith) in
    let rest =
      all_ticks-Bought r (cpu_ticks m n) reports pos first.running (omega (arith, first.near))
        (omega (arith, counted)) in
    (
      record {
        running = rest.0.running;
        more = omega (arith, rest.0.more, first.more);
        near = omega (arith, rest.0.near, first.near);
      },
      omega (arith, rest.1, counted),
    )

-- Every call of the emulator's loop reports at most `quota` instructions.
abbrev pub IsPaced {ℓ} : {W : Type ℓ} → ℕ → Emulator W → Type ℓ
IsPaced {W = W} quota e = (w : W) (c : VirtualClock) → sum (e.loop w c).1 ≤ quota

-- What one round does to a clock that has not reached the target.
pub record Advanced (r quota target : ℕ) (c d : VirtualClock) : Type 0 where
  pub running : IsRunning r d
  pub more : progress r c < progress r d
  pub bound : d.now_us * r ≤ target * r + quota * 1000000

pub suc_mul : (n r : ℕ) → suc n * r ≡ n * r + r
suc_mul n r = grind arith

below_target : (now rem r target : ℕ) → now < target → rem < r → now * r + rem < target * r
below_target now rem r target h k =
    omega (arith, mul-le-mul_right {m = suc now} {n = target} r h, suc_mul now r)

now_le : (now rem r now' rem' : ℕ) → now' * r + rem' ≡ now * r + rem → rem < r → now' ≤ now
now_le now rem r now' rem' same small = elim (Bool-cases (ltb now now')) [
  | inl above ↦
      let more = mul-le-mul_right {m = suc now} {n = now'} r (ltb→lt now now' above) in
      omega (arith, more, suc_mul now r)
  | inr below ↦ ground (arith, below)
]

-- A jump over the time in which nothing runs.
abbrev idle : Option ℕ → ℕ → VirtualClock → VirtualClock
idle next target c = advance_us (min (jump next (target - c.now_us)) (target - c.now_us)) c

jump_pos : (o : Option ℕ) (remaining : ℕ) → 0 < remaining → 0 < jump o remaining
jump_pos none remaining h = h
jump_pos (some next) remaining h = omega arith

record Jumped (r target : ℕ) (c d : VirtualClock) : Type 0 where
  running : IsRunning r d
  more : progress r c < progress r d
  reached : d.now_us ≤ target

idle-Jumped :
    (r target : ℕ) (o : Option ℕ) (c : VirtualClock)
    → IsRunning r c
    → target < u64
    → c.now_us < target
    → Jumped r target c (idle o target c)
unfolding advance_us
idle-Jumped r target o c run room below =
    let by : ℕ = min (jump o (target - c.now_us)) (target - c.now_us) in
    let pos : 0 < by = omega (arith, jump_pos o (target - c.now_us) (omega arith)) in
    let now : (idle o target c).now_us ≡ c.now_us + by = mod-eq_of_lt (omega arith) in
    record {
      running = record { rate = run.rate; small = run.small };
      more = omega (
        arith,
        now,
        run.small,
        mul-le-mul_right {m = suc c.now_us} {n = (idle o target c).now_us} r
            (omega (arith, now, pos)),
        suc_mul c.now_us r,
      );
      reached = omega (arith, now);
    }

slice_runs {ℓ} :
    {W : Type ℓ} (e : Emulator W) (m : Machine W)
    → e.runnable ≡ true
    → slice e m
      ≡ all_ticks
          (record m { slice_instructions = 0; world = (e.loop m.world m.clock).0 })
          (e.loop m.world m.clock).1
unfolding slice
slice_runs e m h = rw h refl

slice_idles {ℓ} :
    {W : Type ℓ} (e : Emulator W) (m : Machine W)
    → e.runnable ≡ false
    → slice e m ≡ record m { slice_instructions = 0 }
unfolding slice
slice_idles e m h = rw h refl

-- What the slice does: `n` instructions are counted and paid for.
record Sliced {ℓ} {W : Type ℓ} (r quota : ℕ) (c : VirtualClock) (m : Machine W) : Type 0 where
  n : ℕ
  few : n ≤ quota
  bought : Bought r (n * 1000000) c m.clock
  counted : m.slice_instructions ≡ n

slice-Sliced {ℓ} :
    {W : Type ℓ} (e : Emulator W) (r quota : ℕ) (m : Machine W)
    → 0 < r
    → IsRunning r m.clock
    → IsPaced quota e
    → quota < u32
    → m.clock.now_us + m.clock.remainder + quota * 1000000 < u64
    → Sliced r quota m.clock (slice e m)
slice-Sliced {W = W} e r quota m pos run paced few room =
    let reports : List ℕ = (e.loop m.world m.clock).1 in
    let started : Machine W = record m {
      slice_instructions = 0;
      world = (e.loop m.world m.clock).0;
    } in
    let small : sum reports ≤ quota = paced m.world m.clock in
    let ran = all_ticks-Bought r started reports pos run (omega arith) (omega arith) in
    elim (Bool-cases e.runnable) [
      | inl runs ↦
          subst (Sliced r quota m.clock) (sym (slice_runs e m runs))
            record { n = sum reports; few = small; bought = ran.0; counted = omega (arith, ran.1) }
      | inr idles ↦ subst (Sliced r quota m.clock) (sym (slice_idles e m idles)) record {
        n = 0;
        few = omega arith;
        bought = record { running = run; more = omega arith; near = omega arith };
        counted = refl;
      }
    ]

-- The two ways a round ends.
pub round-Advanced {ℓ} :
    {W : Type ℓ} (e : Emulator W) (r quota target : ℕ) (m : Machine W)
    → 0 < r
    → IsRunning r m.clock
    → IsPaced quota e
    → quota < u32
    → target + r + quota * 1000000 < u64
    → m.clock.now_us < target
    → Advanced r quota target m.clock (round e target m).clock
unfolding round
round-Advanced e r quota target m pos run paced few room below =
    let s = slice-Sliced e r quota m pos run paced few (omega (arith, run.small)) in
    let ran = slice e m in
    let timed = e.advance (e.pump ran.world) ran.clock in
    let under : progress r m.clock < target * r =
      below_target m.clock.now_us m.clock.remainder r target below run.small in
    elim (Bool-cases (ran.slice_instructions == 0)) [
      | inl nothing ↦
          let zero_n : s.n ≡ 0 =
            omega (arith, s.counted, (==_iff ran.slice_instructions 0).0 nothing) in
          let same : progress r ran.clock ≡ progress r m.clock =
            omega (arith, s.bought.more, zero_n) in
          let still =
            now_le m.clock.now_us m.clock.remainder r ran.clock.now_us ran.clock.remainder same
              run.small in
          let j =
            idle-Jumped r target timed.1 ran.clock s.bought.running (omega arith)
              (omega (arith, still)) in
          rw nothing record {
            running = j.running;
            more = omega (arith, j.more, same);
            bound = omega (
              arith,
              mul-le-mul_right {m = (idle timed.1 target ran.clock).now_us} {n = target} r
                  j.reached,
            );
          }
      | inr something ↦
          let some_n : 0 < s.n = ground (arith, something, s.counted) in
          rw something record {
            running = s.bought.running;
            more = omega (arith, s.bought.more, some_n);
            bound = omega (arith, s.bought.more, s.few, under);
          }
    ]
