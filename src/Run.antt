-- ===== src/Run.antt =====
-- `run_for_us` of waterbox/machine.cpp, with the callback that its constructor sets. The emulator is
-- a parameter: what its loop, its timers and the graphics driver do to the world they share.
pub mod Progress
pub mod Ends
use chimera_core_eka2l.Prelude.{
  ℕ, zero, suc, ◌+◌, ◌-◌, ◌%◌, ◌^◌, min, max, Bool, true, false, Option, none, some, List, [], ◌∷◌,
  ltb, ◌==◌, if◌then◌else◌,
}
use chimera_core_eka2l.Vclock.{u64, VirtualClock, advance_us, spend_instructions}

abbrev pub u32 : ℕ
u32 = 2 ^ 32

-- `loop` is the emulator's `sys_->loop()`, with the instruction counts that it reports in order;
-- `pump` is `pump_host_ui` and the driver's `pump`; `advance` is the timer's, with the microseconds
-- to its next deadline. `runnable` says that the machine has a memory system.
pub record Emulator {ℓ} (W : Type ℓ) : Type ℓ where
  pub runnable : Bool
  pub loop : W → VirtualClock → W × List ℕ
  pub pump : W → W
  pub advance : W → VirtualClock → W × Option ℕ

pub record Machine {ℓ} (W : Type ℓ) : Type ℓ where
  pub clock : VirtualClock
  pub slice_instructions : ℕ
  pub world : W

-- How far to jump when nothing ran.
abbrev pub jump : Option ℕ → ℕ → ℕ
jump none remaining = remaining
jump (some next) remaining = max next 1

module _ {ℓ} {W : Type ℓ} where
  -- The callback of `set_cpu_ticks_callback`.
  unfoldable pub cpu_ticks : Machine W → ℕ → Machine W
  cpu_ticks m n = record m {
    slice_instructions = (m.slice_instructions + n) % u32;
    clock = spend_instructions n m.clock;
  }

  abbrev pub all_ticks : Machine W → List ℕ → Machine W
  all_ticks m [] = m
  all_ticks m (n ∷ reports) = all_ticks (cpu_ticks m n) reports

  -- The machine's slice, and whether the loop ran.
  unfoldable pub slice : Emulator W → Machine W → Machine W
  slice e m =
      let fresh = record m { slice_instructions = 0 } in
      if e.runnable
      then (let r = e.loop m.world m.clock in all_ticks (record fresh { world = r.0 }) r.1)
      else fresh

  unfoldable pub round : Emulator W → ℕ → Machine W → Machine W
  round e target m =
      let ran = slice e m in
      let timed = e.advance (e.pump ran.world) ran.clock in
      let after = record ran { world = timed.0 } in
      if after.slice_instructions == 0
      then (let remaining = target - after.clock.now_us in
          record after { clock = advance_us (min (jump timed.1 remaining) remaining) after.clock })
      else after

  -- The loop, on fuel: none where the fuel runs out.
  unfoldable pub run_from : Emulator W → ℕ → ℕ → Machine W → ℕ → Option (Machine W × ℕ)
  run_from e zero target m loops = if ltb m.clock.now_us target then none else some (m, loops)
  run_from e (suc fuel) target m loops =
      let rest =
        run_from e fuel target (round e target m)
          (if e.runnable then (loops + 1) % u64 else loops) in
      if ltb m.clock.now_us target then rest else some (m, loops)

  unfoldable pub run_for_us : Emulator W → ℕ → Machine W → ℕ → Option (Machine W × ℕ)
  run_for_us e fuel m us = run_from e fuel ((m.clock.now_us + us) % u64) m 0
