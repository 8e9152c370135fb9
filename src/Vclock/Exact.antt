-- ===== src/Vclock/Exact.antt =====
-- No time is lost to rounding, however the work is cut into slices (waterbox/vclock.cpp).
use native.Mathlib.Nat.{
  div-add-mod, mul-add-div, mod-add-mod, mod-lt, mod-eq_of_lt, div-le_self, div-eq_of_lt,
}
use chimera_core_eka2l.Prelude.{
  ℕ, ◌+◌, ◌*◌, ◌/◌, ◌%◌, ◌≤◌, ◌<◌, ◌≡◌, refl, ap, ◌∙◌, List, [], ◌∷◌, arith, sym, max,
}
use chimera_core_eka2l.Vclock.{u64, VirtualClock, virtual_clock, spend_instructions, elapsed_us}

-- What every operation keeps: a rate, and less than a microsecond owed.
pub record IsValid (c : VirtualClock) : Type 0 where
  pub rate_pos : 0 < c.instructions_per_second
  pub owed_small : c.remainder < c.instructions_per_second

div_split : (r a b d : ℕ) → 0 < d → (r + (a + b)) / d ≡ (r + a) / d + ((r + a) % d + b) / d
div_split r a b d h =
    ap (λ t. t / d) {x = r + (a + b)} (omega (arith, div-add-mod (r + a) d))
    ∙ mul-add-div h ((r + a) / d) ((r + a) % d + b)

mod_split : (r a b d : ℕ) → (r + (a + b)) % d ≡ ((r + a) % d + b) % d
mod_split r a b d = ap (λ t. t % d) (omega arith) ∙ sym (mod-add-mod (r + a) d b)

-- The slices that the emulator reports, one after the other.
unfoldable pub spend_all : List ℕ → VirtualClock → VirtualClock
spend_all [] c = c
spend_all (n ∷ slices) c = spend_all slices (spend_instructions n c)

abbrev pub sum : List ℕ → ℕ
sum [] = 0
sum (n ∷ slices) = n + sum slices

-- The millionths of an instruction-second that the clock owes after `n` more instructions.
abbrev pub owed : VirtualClock → ℕ → ℕ
owed c n = c.remainder + n * 1000000

spend-IsValid : (n : ℕ) {c : VirtualClock} → IsValid c → IsValid (spend_instructions n c)
unfolding spend_instructions
spend-IsValid n {c} v = record { rate_pos = v.rate_pos; owed_small = mod-lt _ v.rate_pos }

quotient-le : (n d : ℕ) → 0 < d → n / d + n % d ≤ n
quotient-le n d h = grind (arith, div-add-mod n d)

-- What a list of slices leaves, as if time were bought in one piece from the counters of `c`.
record Spent (n : ℕ) (c d : VirtualClock) : Type 0 where
  now : d.now_us ≡ c.now_us + owed c n / c.instructions_per_second
  left : d.remainder ≡ owed c n % c.instructions_per_second
  count : d.instructions ≡ c.instructions + n
  rate : d.instructions_per_second ≡ c.instructions_per_second
  epoch : d.epoch_us ≡ c.epoch_us

-- The counters have room for `n` more instructions.
record HasRoom (n : ℕ) (c : VirtualClock) : Type 0 where
  time : c.now_us + owed c n < u64
  work : c.instructions + n < u64

spend-Spent : (n : ℕ) (c : VirtualClock) → HasRoom n c → Spent n c (spend_instructions n c)
unfolding spend_instructions
spend-Spent n c room =
    let small : owed c n % u64 ≡ owed c n = mod-eq_of_lt (omega arith) in
    record {
      now =
          ap (λ t. (c.now_us + t / c.instructions_per_second) % u64) small
          ∙ mod-eq_of_lt (omega (arith, div-le_self (owed c n) c.instructions_per_second));
      left = ap (λ t. t % c.instructions_per_second) small;
      count = mod-eq_of_lt room.work;
      rate = refl;
      epoch = refl;
    }

-- Two purchases in a row are one.
Spent-trans :
    {a b : ℕ} {c d e : VirtualClock} → IsValid c → Spent a c d → Spent b d e → Spent (a + b) c e
Spent-trans {a} {b} {c} {d} {e} v p q =
    let r = c.instructions_per_second in
    let more : owed d b ≡ owed c a % r + b * 1000000 = omega arith in
    let all : owed c (a + b) ≡ c.remainder + (a * 1000000 + b * 1000000) = omega arith in
    record {
      now =
          q.now
          ∙ rw (more, p.rate, p.now, all)
              (omega (arith, div_split c.remainder (a * 1000000) (b * 1000000) r v.rate_pos));
      left =
          q.left
          ∙ rw (more, p.rate, all) (sym (mod_split c.remainder (a * 1000000) (b * 1000000) r));
      count = omega arith;
      rate = q.rate ∙ p.rate;
      epoch = q.epoch ∙ p.epoch;
    }

spend_all-Spent :
    (slices : List ℕ) (c : VirtualClock)
    → IsValid c
    → HasRoom (sum slices) c
    → Spent (sum slices) c (spend_all slices c)
unfolding spend_all
spend_all-Spent [] c v room =
    let same : owed c 0 ≡ c.remainder = omega arith in
    record {
      now = rw (same, div-eq_of_lt v.owed_small) (omega arith);
      left = rw same (sym (mod-eq_of_lt v.owed_small));
      count = omega arith;
      rate = refl;
      epoch = refl;
    }
spend_all-Spent (n ∷ slices) c v room =
    let first = spend-Spent n c (omega arith) in
    Spent-trans v first (
      spend_all-Spent slices (spend_instructions n c) (spend-IsValid n v) (
        omega (
          arith,
          first.now,
          first.left,
          first.count,
          quotient-le (owed c n) c.instructions_per_second v.rate_pos,
        )))

start-rate : (epoch rate : ℕ) → (virtual_clock epoch rate).instructions_per_second ≡ max rate 1
unfolding virtual_clock
start-rate epoch rate = ground arith

-- However the work is cut into slices, a clock that started at `epoch` has moved by exactly the
-- time that all of it is worth at the declared rate (a rate of 0 counts as 1), rounded down once;
-- the remainder is kept, and every instruction is counted. The counters must have room for it.
pub elapsed-spend_all :
    (epoch rate : ℕ) (slices : List ℕ)
    → epoch + sum slices * 1000000 < u64
    → let c = spend_all slices (virtual_clock epoch rate) in
      (elapsed_us c ≡ sum slices * 1000000 / max rate 1)
      × (c.remainder ≡ sum slices * 1000000 % max rate 1)
      × (c.instructions ≡ sum slices)
unfolding virtual_clock elapsed_us
elapsed-spend_all epoch rate slices room =
    let start = virtual_clock epoch rate in
    let same : start.instructions_per_second ≡ max rate 1 = start-rate epoch rate in
    let bought = spend_all-Spent slices start (omega (arith, same)) (omega arith) in
    let work : owed start (sum slices) ≡ sum slices * 1000000 = omega arith in
    let now : (spend_all slices start).now_us ≡ epoch + sum slices * 1000000 / max rate 1 =
      bought.now ∙ rw (work, same) in
    (
      omega (arith, now, bought.epoch, div-le_self (sum slices * 1000000) (max rate 1)),
      bought.left ∙ rw (work, same),
      omega (arith, bought.count),
    )
