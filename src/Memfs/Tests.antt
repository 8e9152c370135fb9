-- ===== src/Memfs/Tests.antt =====
-- The filesystem of waterbox/memfs.cpp at concrete inputs.
use chimera_core_eka2l.Prelude.{
  ℕ, ◌+◌, ◌-◌, ◌<◌, ◌≡◌, refl, true, false, none, some, [], ◌∷◌, ◌++◌, Bytes, codes, returns,
  replicate, arith, length, min, eqb,
}
use chimera_core_eka2l.Memfs.Path.{lowered, tolower, split_path, rewrite_for_eka2}
use chimera_core_eka2l.Memfs.Path.Components.{split_path-spell, spell}
use chimera_core_eka2l.Memfs.Node.{is_dir, Node, node, nil, cons, find, put, modify, walk, content}
use chimera_core_eka2l.Memfs.Types.{
  root, Platform, FileSystem, Place, Mode, update, attrib_none, physical, memory_file_system,
}
use chimera_core_eka2l.Memfs.Types.WellFormed.{IsWellFormed}
use chimera_core_eka2l.Memfs.Resolve.{
  mount_empty, resolve, resolve_parent, looked_up, drive_of, descend,
}
use chimera_core_eka2l.Memfs.Resolve.Laws.{resolve-lowered}
use chimera_core_eka2l.Memfs.File.{File, memory_file, size, write_file, read_file}
use chimera_core_eka2l.Memfs.File.Contents.{byte}
use chimera_core_eka2l.Memfs.File.Laws.{
  write_file_lem, Written, read_file_lem, read_file-write_file,
}
use chimera_core_eka2l.Memfs.Entries.{
  create_directory, create_directories, delete_entry, open_file, open_resolved, open_missing,
  open_node,
}
use chimera_core_eka2l.Memfs.Entries.Rewrite.{Rewritten, open_file-write}
use chimera_core_eka2l.Memfs.Entries.Path.{Made, create_directories-Made}
use chimera_core_eka2l.Memfs.Entries.Delete.{Answer, delete_entry_lem}
use chimera_core_eka2l.Memfs.Directory.{
  UidType, Directory, memory_directory, get_next_entry, peek_next_entry,
}
use chimera_core_eka2l.Memfs.Directory.Peek.{get_next_entry-peek_next_entry}
use chimera_core_eka2l.Memfs.Rpkg.{read_entries}
use chimera_core_eka2l.Memfs.Rpkg.Records.{read_entries_fuel}
use chimera_core_eka2l.Memfs.Reach.{here, next, mounts, creates, opens}
use chimera_core_eka2l.Memfs.Reach.Runs.{Reach-IsWellFormed}

split_mixed : split_path (codes "C:\\System/apps\\\\x.app") ≡ record {
  ok = true;
  drive_letter = b'c';
  parts = codes "System" ∷ codes "apps" ∷ codes "x.app" ∷ [];
}
unfolding split_path
split_mixed = refl

rewrite_libs : rewrite_for_eka2 (codes "C:/System/LIBS/a.dll") ≡ codes "C:\\sys\\bin/a.dll"
unfolding rewrite_for_eka2
rewrite_libs = refl

-- A name that only begins with `\system\libs` is rewritten as well.
rewrite_prefix : rewrite_for_eka2 (codes "C:\\system\\libsave") ≡ codes "C:\\sys\\binave"
unfolding rewrite_for_eka2
rewrite_prefix = refl

-- EKA2L1's helpers, for paths of ASCII bytes.
abbrev platform : Platform
platform = record {
  ucs2_to_utf8 = λ b. b;
  utf8_to_ucs2 = λ b. b;
  full_wildcard_match = λ name filter fold. true;
  add_path = λ a b. a ++ b;
  filename = λ b. b;
  eka2 = 2;
  epoc6 = 1;
  default_drive = record {
    attribute = attrib_none;
    drive_name = [];
    media_type = physical;
    real_path = [];
  };
}

-- Drive C, empty; then with a directory on it.
abbrev drive_c : FileSystem
drive_c = (mount_empty (memory_file_system platform) 2 physical attrib_none).0

abbrev data_path : Bytes
data_path = codes "C:\\Data"

abbrev with_data : FileSystem
with_data = (create_directory platform drive_c data_path).0

Reach-IsWellFormed_example : IsWellFormed with_data
Reach-IsWellFormed_example =
    Reach-IsWellFormed platform {fs = with_data}
      (next (next here (mounts 2 physical attrib_none refl)) (creates data_path refl))

resolve-lowered_example :
    resolve platform with_data (lowered data_path) ≡ resolve platform with_data data_path
resolve-lowered_example = resolve-lowered platform with_data data_path

abbrev top : Place
top = record { drive = 2; keys = [] }

abbrev empty_directory : Node
empty_directory = node [] true nil [] none

with_data-IsWellFormed : IsWellFormed with_data
with_data-IsWellFormed =
    Reach-IsWellFormed platform
      (next (next here (mounts 2 physical attrib_none refl)) (creates data_path refl))

abbrev nested_path : Bytes
nested_path = codes "C:\\Data\\Games\\N"

nested_looked_up : looked_up platform with_data nested_path ≡ nested_path
unfolding looked_up rewrite_for_eka2 create_directory mount_empty memory_file_system resolve_parent
    split_path descend drive_of walk update
nested_looked_up = refl

nested_splits : (split_path nested_path).ok ≡ true
unfolding split_path
nested_splits = refl

nested_drive : drive_of with_data (split_path nested_path).drive_letter ≡ some 2
unfolding looked_up create_directory mount_empty memory_file_system resolve_parent split_path
    descend drive_of walk find update modify
nested_drive = refl

nested_root : is_dir (root with_data 2) ≡ true
unfolding looked_up create_directory mount_empty memory_file_system resolve_parent split_path
    descend drive_of walk find update modify
nested_root = refl

create_directories-Made_example :
    Made platform with_data nested_path (create_directories platform with_data nested_path)
create_directories-Made_example =
    create_directories-Made platform with_data nested_path 2 with_data-IsWellFormed nested_looked_up
      nested_splits nested_drive nested_root

delete_entry_lem_example :
    Answer platform with_data data_path (delete_entry platform with_data data_path)
delete_entry_lem_example = delete_entry_lem platform with_data data_path with_data-IsWellFormed

abbrev reading : Mode
reading = record { read = true; write = false; append = false; others = 0 }

abbrev writing : Mode
writing = record { read = false; write = true; append = false; others = 0 }

-- A file on drive C, made by opening it.
abbrev file_path : Bytes
file_path = codes "C:\\A.txt"

abbrev with_a : FileSystem
with_a = (open_file platform drive_c file_path writing).0

abbrev a_place : Place
a_place = record { drive = 2; keys = codes "a.txt" ∷ [] }

abbrev a_node : Node
a_node = node (codes "A.txt") false nil [] none

abbrev a_handle : File
a_handle = record { node = a_place; name = file_path; mode = writing; position = 0 }

open_file-write_example :
    Rewritten platform with_a file_path a_place
      (1 ∷ 2 ∷ [])
      (open_file platform with_a file_path writing).0
      a_handle
unfolding open_file open_resolved open_missing open_node resolve resolve_parent looked_up drive_of
    descend walk find put update modify split_path mount_empty memory_file_system memory_file size
    eqb lowered
open_file-write_example =
    open_file-write platform with_a file_path (1 ∷ 2 ∷ []) a_place a_node
      (open_file platform with_a file_path writing).0 a_handle
      (Reach-IsWellFormed platform
        (next (next here (mounts 2 physical attrib_none refl)) (opens file_path writing refl)))
      refl refl (omega arith)

split_path-spell_example :
    split_path
      (b'C' ∷ b':' ∷ spell (record { separators = codes "\\"; name = codes "a" } ∷ []) (codes "/"))
    ≡ record { ok = true; drive_letter = tolower b'C'; parts = codes "a" ∷ [] }
split_path-spell_example =
    split_path-spell b'C' (record { separators = codes "\\"; name = codes "a" } ∷ []) (codes "/")
      (λ e. omega (arith, e)) (((λ e. cc), (refl, tt), (refl, tt)), tt) (refl, tt)

abbrev five : Node
five = node (codes "f") false nil (1 ∷ 2 ∷ 3 ∷ 4 ∷ 5 ∷ []) none

abbrev at_three : File
at_three = record { node = top; name = []; mode = writing; position = 3 }

abbrev four : Bytes
four = 6 ∷ 7 ∷ 8 ∷ 9 ∷ []

write_file_lem_example :
    (n' : Node) × (f' : File) × (write_file five at_three four 2 2 ≡ returns (n', f', 4))
    × Written five at_three four n' f'
write_file_lem_example = write_file_lem five at_three four 2 2 refl refl refl (omega arith)

read_file_lem_example :
    let (f', got) = read_file five at_three 2 2 in
    (length got ≡ min 4 (size five - 3))
    × (f'.position ≡ 3 + length got)
    × ((i : ℕ) → i < length got → byte got i ≡ byte (content five) (3 + i))
unfolding size
read_file_lem_example = read_file_lem five at_three 2 2 (omega arith) (omega arith)

abbrev nine : Node
nine = node (codes "f") false nil (1 ∷ 2 ∷ 3 ∷ 6 ∷ 7 ∷ 8 ∷ 9 ∷ []) none

written : write_file five at_three four 2 2 ≡ returns (nine, record at_three { position = 7 }, 4)
unfolding write_file
written = refl

read_file-write_file_example :
    read_file nine at_three 2 2 ≡ (record at_three { position = 7 }, four)
read_file-write_file_example =
    read_file-write_file five nine at_three (record at_three { position = 7 }) four 2 2 4 refl refl
      refl (omega arith) (omega arith) written

abbrev all_uids : UidType
all_uids = record { uid1 = 0; uid2 = 0; uid3 = 0 }

abbrev listing : Directory
listing =
    memory_directory (node [] true (cons (codes "data") empty_directory nil) [] none) (codes "C:\\")
      (codes "*") all_uids attrib_none

get_next_entry-peek_next_entry_example :
    let peek = peek_next_entry platform with_data listing in
    let again = peek_next_entry platform with_data peek.0 in
    let got = get_next_entry platform with_data again.0 in
    let direct = get_next_entry platform with_data listing in
    (peek.1 ≡ direct.1)
    × (again.1 ≡ direct.1)
    × (got.1 ≡ direct.1)
    × (got.0.at ≡ direct.0.at)
    × (got.0.peeking ≡ false)
unfolding memory_directory
get_next_entry-peek_next_entry_example =
    get_next_entry-peek_next_entry platform with_data listing refl

read_entries_fuel_example :
    read_entries platform 40 (replicate 40 0) empty_directory 0
    ≡ read_entries platform 99 (replicate 40 0) empty_directory 0
read_entries_fuel_example =
    read_entries_fuel platform 40 99 (replicate 40 0) empty_directory 0 (omega arith) (omega arith)
