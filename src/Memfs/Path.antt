-- ===== src/Memfs/Path.antt =====
-- waterbox/memfs.cpp: the helpers on paths (`lowered`, `split_path`, `rewrite_for_eka2`).
-- A path is the list of its bytes; `tolower` is that of the C locale, the one a core runs in.
pub mod Components
pub mod Case
use chimera_core_eka2l.Prelude.{
  ℕ, ◌+◌, ◌-◌, ◌≡◌, refl, Bool, true, false, not, ◌&&◌, ◌||◌, List, [], ◌∷◌, ◌++◌, map, Bytes,
  codes, leb, ltb, ◌==◌, if◌then◌else◌, length, take, drop, is_empty,
}

-- `std::tolower` on one unsigned byte.
abbrev pub tolower : ℕ → ℕ
tolower c = if leb b'A' c && leb c b'Z' then c + 32 else c

unfoldable pub lowered : Bytes → Bytes
lowered = map tolower

abbrev pub is_separator : ℕ → Bool
is_separator c = c == b'\\' || c == b'/'

-- What `split_path` hands back: its result and its two reference arguments.
pub record Split : Type 0 where
  pub ok : Bool
  pub drive_letter : ℕ
  pub parts : List Bytes

-- `if (!current.empty()) { parts.push_back(current); current.clear(); }`
abbrev pub flush : Bytes → List Bytes → List Bytes
flush [] parts = parts
flush (c ∷ current) parts = parts ++ (c ∷ current) ∷ []

-- The loop over the rest of the path, with `current` and `parts`.
unfoldable pub components : Bytes → Bytes → List Bytes → List Bytes
components [] current parts = flush current parts
components (c ∷ path) current parts =
    components path (if is_separator c then [] else current ++ c ∷ [])
      (if is_separator c then flush current parts else parts)

-- `(path.size() >= 2) && (path[1] == ':')`
abbrev pub has_drive : Bytes → Bool
has_drive (d ∷ c ∷ rest) = c == b':'
has_drive _ = false

abbrev pub first_byte : Bytes → ℕ
first_byte [] = 0
first_byte (d ∷ rest) = d

unfoldable pub split_path : Bytes → Split
unfolding components
split_path path =
    let letter = if has_drive path then tolower (first_byte path) else 0 in
    record {
      ok = not (letter == 0);
      drive_letter = letter;
      parts = components (if has_drive path then drop 2 path else path) [] [];
    }

-- One round of `starts`: equal but for case, or two different separators.
abbrev pub same_char : ℕ → ℕ → Bool
same_char a b = a == b || (a == b'/' && b == b'\\') || (a == b'\\' && b == b'/')

-- The lambda `starts`, past the two bytes of the drive: the loop stops at the first difference.
unfoldable pub starts : Bytes → Bytes → Bool
starts path [] = true
starts [] (w ∷ what) = false
starts (c ∷ path) (w ∷ what) = same_char (tolower c) (tolower w) && starts path what

abbrev pub system_libs : Bytes
system_libs = codes "\\system\\libs"

abbrev pub system_programs : Bytes
system_programs = codes "\\system\\programs"

abbrev pub sys_bin : Bytes
sys_bin = codes "\\sys\\bin"

unfoldable pub rewrite_for_eka2 : Bytes → Bytes
unfolding starts
rewrite_for_eka2 path =
    if ltb (length path) 14
    then path
    else if starts (drop 2 path) system_libs
    then take 2 path ++ sys_bin ++ drop 14 path
    else if starts (drop 2 path) system_programs
    then take 2 path ++ sys_bin ++ drop 18 path
    else path
