-- ===== src/Savestate.antt =====
-- The savestate in memory of waterbox/run-wbx.c: `struct statebuf`, `state_write`, `state_read`, and
-- `mem_read` of a file that is only bytes. `realloc` is the C library's, a parameter: whether it gives
-- a block of the size.
pub mod RoundTrip
use chimera_core_eka2l.Prelude.{
  ℕ, ◌+◌, ◌-◌, ◌*◌, ◌%◌, Bool, true, false, List, [], ◌∷◌, ◌++◌, Bytes, ltb, if◌then◌else◌, length,
  take, drop, min,
}
use chimera_core_eka2l.Vclock.{u64}

-- The bytes are those below `len`: nothing reads what lies beyond.
pub record StateBuf : Type 0 where
  pub p : Bytes
  pub cap : ℕ
  pub pos : ℕ

abbrev pub with_bytes : StateBuf → Bytes → StateBuf
with_bytes b d = record b { p = b.p ++ d }

-- The bytes put where there is room for `need`, or into a block of `want`; false for -1.
abbrev pub stored : (ℕ → Bool) → Bytes → StateBuf → ℕ → ℕ → StateBuf × Bool
stored realloc d b need want =
    if ltb b.cap need
    then if realloc want then (with_bytes (record b { cap = want }) d, true) else (b, false)
    else (with_bytes b d, true)

unfoldable pub state_write : (ℕ → Bool) → Bytes → StateBuf → StateBuf × Bool
state_write realloc d b =
    stored realloc d b ((length b.p + length d) % u64) ((length b.p + length d) % u64 * 2 % u64)

unfoldable pub state_read : ℕ → StateBuf → StateBuf × Bytes
state_read n b =
    let left = length b.p - b.pos in
    let m = if ltb left n then left else n in
    (record b { pos = b.pos + m }, take m (drop b.pos b.p))

-- A file of bytes, read as the savestate is.
pub record MemFile : Type 0 where
  pub p : Bytes
  pub pos : ℕ

unfoldable pub mem_read : ℕ → MemFile → MemFile × Bytes
mem_read s f =
    let left = length f.p - f.pos in
    let m = if ltb left s then left else s in
    (record f { pos = f.pos + m }, take m (drop f.pos f.p))

-- `g_state.len = 0` before a save, and `g_state.pos = 0` before a load.
unfoldable pub for_save : StateBuf → StateBuf
for_save b = record b { p = [] }

unfoldable pub for_load : StateBuf → StateBuf
for_load b = record b { pos = 0 }
