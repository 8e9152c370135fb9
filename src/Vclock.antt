-- ===== src/Vclock.antt =====
-- waterbox/vclock.h and waterbox/vclock.cpp: the machine's clock, bought with instructions.
pub mod Exact
use chimera_core_eka2l.Prelude.{ℕ, ◌+◌, ◌-◌, ◌*◌, ◌/◌, ◌%◌, ◌^◌, ◌==◌, if◌then◌else◌}

abbrev pub u64 : ℕ
u64 = 2 ^ 64

-- The fields of `virtual_clock`, unsigned 64-bit numbers all.
pub record VirtualClock : Type 0 where
  pub epoch_us : ℕ
  pub now_us : ℕ
  pub instructions_per_second : ℕ
  pub remainder : ℕ
  pub instructions : ℕ

-- The constructor. A rate of nothing is a rate of one.
unfoldable pub virtual_clock : ℕ → ℕ → VirtualClock
virtual_clock epoch rate = record {
  epoch_us = epoch;
  now_us = epoch;
  instructions_per_second = if rate == 0 then 1 else rate;
  remainder = 0;
  instructions = 0;
}

unfoldable pub advance_us : ℕ → VirtualClock → VirtualClock
advance_us us c = record c { now_us = (c.now_us + us) % u64 }

-- The argument is a `uint32_t`; every sum wraps at 64 bits.
unfoldable pub spend_instructions : ℕ → VirtualClock → VirtualClock
spend_instructions n c =
    let owed = (c.remainder + n * 1000000) % u64 in
    record c {
      instructions = (c.instructions + n) % u64;
      now_us = (c.now_us + owed / c.instructions_per_second) % u64;
      remainder = owed % c.instructions_per_second;
    }

-- `now_us() - epoch_us()`, on unsigned numbers.
unfoldable pub elapsed_us : VirtualClock → ℕ
elapsed_us c = (c.now_us + u64 - c.epoch_us) % u64
