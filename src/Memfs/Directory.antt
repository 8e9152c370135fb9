-- ===== src/Memfs/Directory.antt =====
-- waterbox/memfs.cpp: `memory_directory`, the iterator over one directory.
pub mod Peek
use mathlib.Core.Option
use chimera_core_eka2l.Prelude.{
  ℕ, zero, suc, ◌+◌, ◌*◌, Bool, true, false, not, ◌&&◌, ◌||◌, Option, none, some, List, [], ◌∷◌,
  Bytes, codes, ltb, ◌==◌, if◌then◌else◌, get_or, drop, take, is_empty, length,
}
use chimera_core_eka2l.Memfs.Path.{lowered}
use chimera_core_eka2l.Memfs.Node.{Node, is_dir, children, child_names}
use chimera_core_eka2l.Memfs.Types.{Platform, FileSystem, Attributes, is_none, Mode, Place, node_at}
use chimera_core_eka2l.Memfs.Resolve.{resolve}
use chimera_core_eka2l.Memfs.File.{File, read_file}
use chimera_core_eka2l.Memfs.Entries.{open_file, EntryInfo, get_entry_info}

-- `epoc::uid_type`: three 32-bit words.
pub record UidType : Type 0 where
  pub uid1 : ℕ
  pub uid2 : ℕ
  pub uid3 : ℕ

pub record Directory : Type 0 where
  pub virtual_path : Bytes
  pub filter : Bytes
  pub uid : UidType
  pub attribute : Attributes
  pub names : List Bytes
  pub at : ℕ
  pub peeking : Bool
  pub peeked : Option EntryInfo

-- The constructor: the names are copied as the iterator is made.
unfoldable pub memory_directory : Node → Bytes → Bytes → UidType → Attributes → Directory
unfolding child_names
memory_directory n virtual_path filter uid attrib = record {
  virtual_path = virtual_path;
  filter = filter;
  uid = uid;
  attribute = attrib;
  names = child_names (children n);
  at = 0;
  peeking = false;
  peeked = none;
}

-- A word of the record that `read_file(&found, 1, sizeof(found))` fills, least byte first.
abbrev pub word : Bytes → ℕ
word b = get_or b 0 0 + 256 * get_or b 1 0 + 65536 * get_or b 2 0 + 16777216 * get_or b 3 0

abbrev pub uid_of : Bytes → UidType
uid_of b = record { uid1 = word b; uid2 = word (drop 4 b); uid3 = word (drop 8 b) }

-- Whether a wanted identifier differs from the one found. 0 wants none in particular.
abbrev pub differs : ℕ → ℕ → Bool
differs wanted found = not (wanted == 0) && not (wanted == found)

abbrev pub uid_rejects : UidType → UidType → Bool
uid_rejects wanted found =
    differs wanted.uid1 found.uid1
    || differs wanted.uid2 found.uid2
    || differs wanted.uid3 found.uid3

abbrev pub read_only : Mode
read_only = record { read = true; write = false; append = false; others = 1 }

-- The check of a file's identifiers: it reads the first twelve bytes through a handle of its own.
abbrev pub uid_matches : FileSystem → UidType → Option File → Bool
uid_matches fs wanted none = false
uid_matches fs wanted (some f) = elim (node_at fs f.node) [
  | none ↦ false
  | some n ↦
      let found = (read_file n f 1 12).1 in
      length found == 12 && not (uid_rejects wanted (uid_of found))
]

-- The kinds of entry that the caller asked for. No attribute at all asks for every kind.
unfoldable pub kind_passes : Attributes → Bool → Bool
kind_passes a dir =
    is_none a || (not (not a.include_dir && dir) && not (not a.include_file && not dir))

-- One round of the loop of `get_next_entry`: none where it goes on to the next name.
unfoldable pub try_name : Platform → FileSystem → Directory → Bytes → Option EntryInfo
unfolding kind_passes
try_name p fs d name =
    let full = p.add_path d.virtual_path name in
    if not (p.full_wildcard_match (lowered name) (lowered d.filter) false)
    then none
    else elim (resolve p fs full) [
      | none ↦ none
      | some (at, n) ↦
          if not (kind_passes d.attribute (is_dir n))
          then none
          else elim (get_entry_info p fs (p.utf8_to_ucs2 full)) [
            | none ↦ none
            | some info ↦
                if d.attribute.include_file && d.attribute.allow_uid && not (is_dir n)
                then (if uid_matches fs d.uid (open_file p fs (p.utf8_to_ucs2 full) read_only).1
                    then some info
                    else none)
                else some info
          ]
    ]

-- The loop over the names from `at_` on: where it stops, and what it returns.
unfoldable pub scan : Platform → FileSystem → Directory → List Bytes → ℕ → ℕ × Option EntryInfo
scan p fs d [] at = (at, none)
scan p fs d (name ∷ names) at = elim (try_name p fs d name) [
  | none ↦ scan p fs d names (suc at)
  | some info ↦ (suc at, some info)
]

unfoldable pub get_next_entry : Platform → FileSystem → Directory → Directory × Option EntryInfo
unfolding scan
get_next_entry p fs d =
    if d.peeking
    then (record d { peeking = false }, d.peeked)
    else let (at, found) = scan p fs d (drop d.at d.names) d.at in (record d { at = at }, found)

unfoldable pub peek_next_entry : Platform → FileSystem → Directory → Directory × Option EntryInfo
unfolding get_next_entry
peek_next_entry p fs d =
    if d.peeking
    then (d, d.peeked)
    else let (d', found) = get_next_entry p fs d in
      (record d' { peeked = found; peeking = true }, found)

-- `find_last_of("\\/")`, and what stands after it: the path up to and with the last separator, and
-- the rest. The accumulator holds what came since the last separator.
unfoldable pub split_last : Bytes → Bytes → Bytes → Bytes × Bytes
split_last done since [] = (done, since)
split_last done since (c ∷ path) =
    let next = mathlib.Core.List.◌++◌ since (c ∷ []) in
    split_last (if c == b'\\' || c == b'/' then mathlib.Core.List.◌++◌ done next else done)
      (if c == b'\\' || c == b'/' then [] else next) path

-- `open_directory`: the last component is a filter, unless there is no separator before it or
-- nothing behind the last one.
unfoldable pub open_directory :
    Platform → FileSystem → Bytes → UidType → Attributes → Option Directory
unfolding split_last memory_directory resolve
open_directory p fs path uid attrib =
    let utf8 = p.ucs2_to_utf8 path in
    let (dir, last) = split_last [] [] utf8 in
    let has_filter = not (is_empty dir) && not (is_empty last) in
    let utf8' = if has_filter then dir else utf8 in
    let filter = if has_filter then last else codes "*" in
    elim (resolve p fs utf8') [
      | none ↦ none
      | some (at, n) ↦ if is_dir n then some (memory_directory n utf8' filter uid attrib) else none
    ]
