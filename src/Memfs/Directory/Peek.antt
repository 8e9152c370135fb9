-- ===== src/Memfs/Directory/Peek.antt =====
-- `peek_next_entry` and `get_next_entry` of `memory_directory` (waterbox/memfs.cpp).
use chimera_core_eka2l.Prelude.{◌≡◌, false, arith}
use chimera_core_eka2l.Memfs.Types.{Platform, FileSystem}
use chimera_core_eka2l.Memfs.Directory.{Directory, get_next_entry, peek_next_entry}

-- Where no entry is held back: a peek answers what the next get would, a second peek and the get
-- after it answer that again, and after that get the position is the one that a get without a peek
-- leaves, with no entry held back.
pub get_next_entry-peek_next_entry :
    (p : Platform) (fs : FileSystem) (d : Directory)
    → d.peeking ≡ false
    → let peek = peek_next_entry p fs d in
      let again = peek_next_entry p fs peek.0 in
      let got = get_next_entry p fs again.0 in
      let direct = get_next_entry p fs d in
      (peek.1 ≡ direct.1)
      × (again.1 ≡ direct.1)
      × (got.1 ≡ direct.1)
      × (got.0.at ≡ direct.0.at)
      × (got.0.peeking ≡ false)
unfolding peek_next_entry get_next_entry
get_next_entry-peek_next_entry p fs d h = ground (arith, h)
