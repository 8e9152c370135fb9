-- ===== src/Harness/Native/Verify.antt =====
-- `--verify` of waterbox/run-native.cpp: a file of the machine's memory filesystem read back in odd
-- pieces and compared with the host's.
pub mod Clean
use mathlib.Core.Option
use chimera_core_eka2l.Prelude.{
  ℕ, zero, suc, ◌+◌, ◌-◌, ◌*◌, ◌≤◌, ◌<◌, min, ◌≡◌, ◌↔◌, refl, sym, ap, ◌∙◌, Bool, true, false,
  Option, none, some, List, [], ◌∷◌, ◌++◌, Bytes, ltb, leb, ◌==◌, if◌then◌else◌, length, take, drop,
  replicate, Outcome, returns, throws, undefined, arith, Bool-cases, le→leb, inl, inr, length-take,
  length-drop, take_all,
}
use chimera_core_eka2l.Vclock.{u64}
use chimera_core_eka2l.Savestate.RoundTrip.{drop-drop, take_split, append_assoc, append_nil}
use chimera_core_eka2l.Memfs.Node.{Node, content}
use chimera_core_eka2l.Memfs.File.{File, SeekMode, beg, size, seek, read_file, max_size}
use chimera_core_eka2l.Memfs.File.Contents.{byte, byte-take, byte-drop, eq_of_bytes}
use chimera_core_eka2l.Memfs.File.Laws.{read_file_lem}

abbrev pub piece : ℕ
piece = 4093

-- The bytes of `got_bytes` from `at` on, and whether all reads were whole: what a short read leaves is
-- as it was made, 0.
abbrev pub piece_read : ℕ → ℕ → Bytes → (Bytes × Bool) → Bytes × Bool
piece_read left chunk got rest =
    if length got == chunk
    then (got ++ rest.0, rest.1)
    else (got ++ replicate (left - length got) 0, false)

abbrev pub sought : File → Outcome (File × ℕ) → File
sought f (returns (f', w)) = f'
sought f throws = f
sought f undefined = f

-- The loop, on fuel: as many rounds as there are bytes are enough.
unfoldable pub verify_from : ℕ → Node → File → ℕ → ℕ → Bytes × Bool
verify_from zero n f total at = ([], true)
verify_from (suc fuel) n f total at =
    let chunk = min piece (total - at) in
    let r = read_file n (sought f (seek n f at beg)) chunk 1 in
    let rest = verify_from fuel n r.0 total (at + chunk) in
    if ltb at total then piece_read (total - at) chunk r.1 rest else ([], true)

unfoldable pub read_back : Node → File → ℕ → Bytes × Bool
unfolding verify_from
read_back n f total = verify_from total n f total 0

-- `mismatch`: where the two byte strings first differ.
unfoldable pub first_difference : Bytes → Bytes → Option ℕ
first_difference got [] = none
first_difference [] (w ∷ want) = some 0
first_difference (b ∷ got) (w ∷ want) =
    if b == w then Option.map suc (first_difference got want) else some 0
