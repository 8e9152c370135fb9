-- ===== src/Install/Card.antt =====
-- `install_card` of waterbox/machine.cpp: a game card out of the archive that it came in. The archive
-- is libarchive's, read through EKA2L1: its entries in order, and the content of each.
pub mod Root
pub mod Selected
pub mod Drive
use chimera_core_eka2l.Prelude.{
  ℕ, zero, suc, ◌+◌, ◌-◌, ◌%◌, Bool, true, false, not, ◌&&◌, ◌||◌, Option, none, some, List, [],
  ◌∷◌, ◌++◌, map, Bytes, codes, eqb, ◌==◌, if◌then◌else◌, length, take, drop, get_or, is_empty,
  is_some,
}
use chimera_core_eka2l.Install.{Emulator, u32}

pub record Entry : Type 0 where
  pub path : Bytes
  pub is_directory : Bool

-- `list_archive` fails with none, and so does `read_archive_entry`. `lowercase_string` is EKA2L1's.
pub record Archive : Type 0 where
  pub entries : Option (List Entry)
  pub content : Bytes → Option Bytes
  pub lowercase_string : Bytes → Bytes

-- Whether a text begins with another.
unfoldable pub begins : Bytes → Bytes → Bool
begins text [] = true
begins [] (w ∷ word) = false
begins (c ∷ text) (w ∷ word) = c == w && begins text word

abbrev pub system_slash : Bytes
system_slash = codes "system/"

-- `std::string::find`: where the word stands first, counted from `at`.
unfoldable pub find_from : Bytes → Bytes → ℕ → Option ℕ
unfolding begins
find_from word [] at = if begins [] word then some at else none
find_from word (c ∷ text) at =
    if begins (c ∷ text) word then some at else find_from word text (suc at)

-- The test on the first place where "system/" stands: it opens the path, or a '/' is before it.
abbrev pub root_at : Bytes → Option ℕ → Option ℕ
root_at text none = none
root_at text (some at) =
    if not (at == 0) && not (get_or text (at - 1) 0 == b'/') then none else some at

-- The first loop: the prefix of the first entry that has such a place; none where no root is found.
unfoldable pub find_prefix : (Bytes → Bytes) → List Entry → Option Bytes
unfolding find_from
find_prefix lower [] = none
find_prefix lower (entry ∷ entries) =
    elim (root_at (lower entry.path) (find_from system_slash (lower entry.path) 0)) [
      | none ↦ find_prefix lower entries
      | some at ↦ some (take at entry.path)
    ]

-- Where an entry of the card goes: drive E, with backslashes.
abbrev pub backslashed : Bytes → Bytes
backslashed = map (λ c. if c == b'/' then b'\\' else c)

unfoldable pub target_of : Bytes → Bytes
target_of relative = backslashed (codes "E:\\" ++ relative)

-- What the second loop takes of an entry: the path below the prefix and the content; none where it
-- goes on to the next.
abbrev pub readable : Bytes → Option Bytes → Option (Bytes × Bytes)
readable relative none = none
readable relative (some content) = if is_empty relative then none else some (relative, content)

unfoldable pub selected : Archive → Bytes → Entry → Option (Bytes × Bytes)
unfolding begins
selected a prefix entry =
    if entry.is_directory || not (begins entry.path prefix)
    then none
    else readable (drop (length prefix) entry.path) (a.content entry.path)

module _ {ℓ} {S F : Type ℓ} (e : Emulator S F) where
  abbrev pub fill : Bytes → S × Option F → S × Bool
  fill content (s, none) = (s, false)
  fill content (s, some f) = (
    e.close f
        (if is_empty content then s else (e.write_file f content 1 (length content % u32) s).0),
    true,
  )

  -- One entry: the directories, the file, its content.
  unfoldable pub copy_entry : Bytes → Bytes → S → S × Bool
  copy_entry relative content s =
      let target = target_of relative in
      let made = e.create_directories (e.utf8_to_ucs2 (e.file_directory target)) s in
      fill content (e.open_file (e.utf8_to_ucs2 target) made)

  -- The second loop, with the number of files written so far.
  abbrev pub step_entry : Option (Bytes × Bytes) → S × ℕ → S × ℕ
  step_entry none (s, written) = (s, written)
  step_entry (some (relative, content)) (s, written) =
      let r = copy_entry relative content s in (r.0, if r.1 then written + 1 else written)

  unfoldable pub copy_entries : Archive → Bytes → List Entry → S × ℕ → S × ℕ
  copy_entries a prefix [] acc = acc
  copy_entries a prefix (entry ∷ entries) acc =
      copy_entries a prefix entries (step_entry (selected a prefix entry) acc)

  abbrev pub copy_card : Archive → List Entry → Option Bytes → S → S × ℕ
  copy_card a entries none s = (s, 0)
  copy_card a entries (some prefix) s = copy_entries a prefix entries (s, 0)

  abbrev pub copy_listed : Archive → Option (List Entry) → S → S × ℕ
  copy_listed a none s = (s, 0)
  copy_listed a (some entries) s = copy_card a entries (find_prefix a.lowercase_string entries) s

  unfoldable pub install_card : Archive → S → S × ℕ
  install_card a s = copy_listed a a.entries s
