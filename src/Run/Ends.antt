-- ===== src/Run/Ends.antt =====
-- `run_for_us` of waterbox/machine.cpp ends, and where.
use native.Mathlib.Nat.{mul-le-mul_right, add-mul, mod-eq_of_lt}
use chimera_core_eka2l.Prelude.{
  ℕ, zero, suc, ◌+◌, ◌*◌, ◌%◌, ◌≤◌, ◌<◌, ◌≡◌, refl, Option, some, ltb, ltb→lt, if◌then◌else◌, arith,
  Bool-cases, inl, inr,
}
use chimera_core_eka2l.Vclock.{u64}
use chimera_core_eka2l.Run.{u32, Emulator, Machine, round, run_from, run_for_us}
use chimera_core_eka2l.Run.Progress.{progress, IsRunning, IsPaced, round-Advanced, suc_mul}

-- The result of the loop: the machine has reached the target, owes less than a microsecond, and has
-- passed the target by no more than one call's instructions are worth.
pub record Ended {ℓ} {W : Type ℓ} (r quota target : ℕ) (o : Option (Machine W × ℕ)) : Type ℓ where
  pub machine : Machine W
  pub loops : ℕ
  pub result : o ≡ some (machine, loops)
  pub running : IsRunning r machine.clock
  pub reached : target ≤ machine.clock.now_us
  pub bound : machine.clock.now_us * r ≤ target * r + quota * 1000000

reached_target : (now rem r target : ℕ) → target * r ≤ now * r + rem → rem < r → target ≤ now
reached_target now rem r target h small = elim (Bool-cases (ltb now target)) [
  | inl below ↦
      let more = mul-le-mul_right {m = suc now} {n = target} r (ltb→lt now target below) in
      omega (arith, more, suc_mul now r)
  | inr above ↦ ground (arith, above)
]

module _ {ℓ} {W : Type ℓ} (e : Emulator W) (r quota target : ℕ) (pos : 0 < r)
    (paced : IsPaced quota e) (few : quota < u32) (room : target + r + quota * 1000000 < u64) where
  stop :
      (m : Machine W) (loops : ℕ)
      → IsRunning r m.clock
      → target ≤ m.clock.now_us
      → m.clock.now_us * r ≤ target * r + quota * 1000000
      → (o : Option (Machine W × ℕ)) → o ≡ some (m, loops)
      → Ended r quota target o
  stop m loops run there bound o h = record {
    machine = m;
    loops = loops;
    result = h;
    running = run;
    reached = there;
    bound = bound;
  }

  run_from-Ended :
      (fuel : ℕ) (m : Machine W) (loops : ℕ)
      → IsRunning r m.clock
      → m.clock.now_us * r ≤ target * r + quota * 1000000
      → target * r ≤ progress r m.clock + fuel
      → Ended r quota target (run_from e fuel target m loops)
  unfolding run_from
  run_from-Ended zero m loops run bound enough =
      let there =
        reached_target m.clock.now_us m.clock.remainder r target (omega arith) run.small in
      stop m loops run there bound _ (ground (arith, there))
  run_from-Ended (suc fuel) m loops run bound enough =
      elim (Bool-cases (ltb m.clock.now_us target)) [
        | inl below ↦
            let a =
              round-Advanced e r quota target m pos run paced few room
                (ltb→lt m.clock.now_us target below) in
            rw below (
              run_from-Ended fuel (round e target m)
                (if e.runnable then (loops + 1) % u64 else loops) a.running a.bound
                (omega (arith, a.more)))
        | inr there ↦ stop m loops run (ground (arith, there)) bound _ (rw there refl)
      ]

mul_sum : (a b r : ℕ) → (a + b) * r ≡ a * r + b * r
mul_sum a b r = add-mul a b r

-- `run_for_us` returns, within `us` times the clock's rate rounds, where the clock owes less than a
-- microsecond, for every emulator whose loop reports at most `quota` instructions a call (fewer than 2^32, and the clock's numbers have room):
-- the clock has reached the target, owes less than a microsecond still, and has passed the target by at most what `quota` instructions buy.
pub run_for_us-Ended {ℓ} :
    {W : Type ℓ} (e : Emulator W) (quota : ℕ) (m : Machine W) (us fuel : ℕ)
    → IsRunning m.clock.instructions_per_second m.clock
    → IsPaced quota e
    → quota < u32
    → m.clock.now_us + us + m.clock.instructions_per_second + quota * 1000000 < u64
    → us * m.clock.instructions_per_second ≤ fuel
    → Ended m.clock.instructions_per_second quota (m.clock.now_us + us) (run_for_us e fuel m us)
unfolding run_for_us
run_for_us-Ended e quota m us fuel run paced few room enough =
    let r : ℕ = m.clock.instructions_per_second in
    let target : (m.clock.now_us + us) % u64 ≡ m.clock.now_us + us = mod-eq_of_lt (omega arith) in
    let sum = mul_sum m.clock.now_us us r in
    rw target (
      run_from-Ended e r quota (m.clock.now_us + us) (omega (arith, run.small)) paced few room fuel
        m 0 run (omega (arith, sum)) (omega (arith, sum)))
