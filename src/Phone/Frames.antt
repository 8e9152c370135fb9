-- ===== src/Phone/Frames.antt =====
-- A frame of the machine (waterbox/machine.cpp) always ends, and moves its clock on.
use native.Mathlib.Nat.{mul-le-mul_right, add-mul, mul_comm}
use chimera_core_eka2l.Prelude.{
  ℕ, suc, ◌+◌, ◌*◌, ◌≤◌, ◌<◌, ◌≡◌, ap, refl, subst, Option, some, leb, arith, Bool-cases, inl, inr,
}
use chimera_core_eka2l.Vclock.{u64}
use chimera_core_eka2l.Run.{u32, run_for_us}
use chimera_core_eka2l.Run.Progress.{IsRunning, IsPaced, suc_mul}
use chimera_core_eka2l.Run.Ends.{Ended, run_for_us-Ended}
use chimera_core_eka2l.Phone.{System, Phone, frame_us, ran, run_frame}

le_of_mul : (a b c r : ℕ) → 0 < r → a * r ≤ b * r + c → a ≤ b + c
le_of_mul a b c r pos h = elim (Bool-cases (leb a (b + c))) [
  | inl small ↦ ground (arith, small)
  | inr large ↦
      let more = mul-le-mul_right {m = suc (b + c)} {n = a} r (ground (arith, large)) in
      let split = add-mul b c r in
      let scaled = mul-le-mul_right {m = 1} {n = r} c pos in
      omega (arith, more, split, suc_mul (b + c) r, scaled, mul_comm c r)
]

-- What a frame does to the clock at the rate `r`.
pub record Stepped {ℓ} {S : Type ℓ} (r quota : ℕ) (p : Phone S) (o : Option (Phone S))
    : Type ℓ where
  pub phone : Phone S
  pub result : o ≡ some phone
  pub running : IsRunning r phone.machine.clock
  pub later : p.machine.clock.now_us + frame_us ≤ phone.machine.clock.now_us
  pub kept : phone.buttons ≡ p.buttons
  pub same : phone.apps_before_install ≡ p.apps_before_install
  pub near : phone.machine.clock.now_us ≤ p.machine.clock.now_us + frame_us + quota * 1000000

module _ {ℓ} {S F : Type ℓ} (sys : System S F) (r quota fuel : ℕ) (paced : IsPaced quota sys.loop)
    (few : quota < u32) (enough : frame_us * r ≤ fuel) where
  -- A frame whose loop has enough fuel ends: the clock is a frame later, or later by no more than what
  -- one call of the emulator's loop reports.
  pub run_frame-Stepped :
      (p : Phone S)
      → IsRunning r p.machine.clock
      → p.machine.clock.now_us + r + (frame_us + quota * 1000000) < u64
      → Stepped r quota p (run_frame sys fuel p)
  unfolding run_frame
  run_frame-Stepped p run room =
      let rate = run.rate in
      let target : ℕ = p.machine.clock.now_us + frame_us in
      let e =
        subst (λ t. Ended t quota target (run_for_us sys.loop fuel p.machine frame_us)) rate
          (run_for_us-Ended sys.loop quota p.machine frame_us fuel
            (record { rate = refl; small = omega (arith, rate, run.small) }) paced few
            (omega (arith, rate)) (omega (arith, enough, rate))) in
      record {
        phone = record p { machine = e.machine };
        result = ap (ran sys p) e.result;
        running = e.running;
        later = e.reached;
        kept = refl;
        same = refl;
        near =
            le_of_mul e.machine.clock.now_us target (quota * 1000000) r (omega (arith, run.small))
              e.bound;
      }
