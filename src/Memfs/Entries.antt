-- ===== src/Memfs/Entries.antt =====
-- waterbox/memfs.cpp: the operations on entries, `open_file` to `create_directories`, and the
-- questions about the tree (`read_whole`, `list_names`, `get_entry_info`, the counts).
pub mod Delete
pub mod Create
pub mod Rewrite
pub mod Kept
pub mod Path
use mathlib.Core.Option
use chimera_core_eka2l.Prelude.{
  ℕ, zero, suc, ◌+◌, ◌-◌, Bool, true, false, not, ◌&&◌, ◌||◌, Option, none, some, List, [], ◌∷◌,
  ◌++◌, map, Bytes, codes, eqb, ltb, ◌==◌, if◌then◌else◌, set, is_some, is_empty, length, Outcome,
  returns, throws, undefined,
}
use chimera_core_eka2l.Memfs.Path.{lowered, Split, split_path}
use chimera_core_eka2l.Memfs.Node.{
  Node, node, Children, nil, cons, name, is_dir, children, bytes, fixed, set_name, set_dir,
  set_bytes, set_children, or_empty, find, put, erase, child_names, content, count_entries,
  count_written, walk_files, modify,
}
use chimera_core_eka2l.Memfs.Types.{
  Platform, FileSystem, Attributes, Mode, Mapping, Place, root, mapping, update,
}
use chimera_core_eka2l.Memfs.Resolve.{drive_of, resolve, resolve_parent, child}
use chimera_core_eka2l.Memfs.File.{File, memory_file, size}

-- `parent->children[k]`, then the assignments `g` to what the reference names.
abbrev pub edit_child : Bytes → (Node → Node) → Node → Node
edit_child k g n = set_children (put k (g (or_empty (find k (children n)))) (children n)) n

-- `open_file`, from where the node is known: none for what was not found.
unfoldable pub open_node :
    FileSystem → Bytes → Mode → Option (Place × Node) → FileSystem × Option File
open_node fs path mode none = (fs, none)
open_node fs path mode (some (at, n)) =
    if is_dir n
    then (fs, none)
    else if is_some (fixed n) && (mode.write || mode.append)
    then (fs, none)
    else if mode.write && not mode.read && not mode.append
    then (update fs at (set_bytes []), some (memory_file at (set_bytes [] n) path mode))
    else (fs, some (memory_file at n path mode))

abbrev pub new_file : Bytes → Node → Node
new_file leaf n = set_dir false (set_name leaf n)

-- The branch of `open_file` for a path that leads nowhere: with `WRITE_MODE` the file is made.
unfoldable pub open_missing :
    FileSystem → Bytes → Mode → Option (Place × Node × Bytes) → FileSystem × Option File
open_missing fs path mode none = (fs, none)
open_missing fs path mode (some (at, parent, leaf)) =
    let k = lowered leaf in
    open_node (update fs at (edit_child k (new_file leaf))) path mode
      (some (child at k, new_file leaf (or_empty (find k (children parent)))))

unfoldable pub open_resolved :
    Platform → FileSystem → Bytes → Bytes → Mode → FileSystem × Option File
open_resolved p fs path utf8 mode = elim (resolve p fs utf8) [
  | none ↦
      if mode.write
      then open_missing fs path mode (resolve_parent p fs utf8)
      else open_node fs path mode none
  | some found ↦ open_node fs path mode (some found)
]

unfoldable pub open_file : Platform → FileSystem → Bytes → Mode → FileSystem × Option File
open_file p fs path mode =
    let utf8 = p.ucs2_to_utf8 path in
    let s = split_path utf8 in
    if not s.ok then (fs, none) else elim (drive_of fs s.drive_letter) [
      | none ↦ (fs, none)
      | some drv ↦
          if (mode.write || mode.append) && (mapping fs drv).drive.attribute.write_protected
          then (fs, none)
          else open_resolved p fs path utf8 mode
    ]

-- Whether the pointer `at` is, or lies below, the entry `moved`.
unfoldable pub strip : List Bytes → List Bytes → Option (List Bytes)
strip [] js = some js
strip (k ∷ keys) [] = none
strip (k ∷ keys) (j ∷ js) = if eqb k j then strip keys js else none

abbrev pub below : Place → Place → Option (List Bytes)
below moved at = if moved.drive == at.drive then strip moved.keys at.keys else none

-- The end of `replace`: the entry leaves `from` and goes under `to`. Where `to` is the node that
-- moves, the code writes through a pointer to what it has erased; where `to` lies below it, the
-- subtree becomes its own descendant and is lost.
unfoldable pub move_entry :
    FileSystem → Place → Bytes → Node → Place → Bytes → Outcome (FileSystem × Bool)
unfolding strip
move_entry fs from k n to leaf =
    let erased = update fs from (λ m. set_children (erase k (children m)) m) in
    elim (below (child from k) to) [
      | none ↦ returns (update erased to (edit_child (lowered leaf) (λ _. set_name leaf n)), true)
      | some [] ↦ undefined
      | some (j ∷ js) ↦ returns (erased, true)
    ]

abbrev pub replace_from :
    Platform → FileSystem → Bytes → Option (Place × Node × Bytes) → Outcome (FileSystem × Bool)
replace_from p fs to none = returns (fs, false)
replace_from p fs to (some (from, parent, leaf)) = elim (find (lowered leaf) (children parent)) [
  | none ↦ returns (fs, false)
  | some found ↦ elim (resolve_parent p fs to) [
    | none ↦ returns (fs, false)
    | some (at, _, to_leaf) ↦ move_entry fs from (lowered leaf) found at to_leaf
  ]
]

unfoldable pub replace : Platform → FileSystem → Bytes → Bytes → Outcome (FileSystem × Bool)
replace p fs old_path new_path =
    replace_from p fs (p.ucs2_to_utf8 new_path) (resolve_parent p fs (p.ucs2_to_utf8 old_path))

unfoldable pub has_children : Node → Bool
has_children (node n d nil b f) = false
has_children (node n d (cons k m c) b f) = true

abbrev pub delete_from : FileSystem → Option (Place × Node × Bytes) → FileSystem × Bool
delete_from fs none = (fs, false)
delete_from fs (some (at, parent, leaf)) = elim (find (lowered leaf) (children parent)) [
  | none ↦ (fs, false)
  | some found ↦
      if is_dir found && has_children found
      then (fs, false)
      else (update fs at (λ m. set_children (erase (lowered leaf) (children m)) m), true)
]

unfoldable pub delete_entry : Platform → FileSystem → Bytes → FileSystem × Bool
delete_entry p fs path = delete_from fs (resolve_parent p fs (p.ucs2_to_utf8 path))

abbrev pub new_directory : Bytes → Node → Node
new_directory leaf n = set_dir true (set_name leaf n)

abbrev pub create_under : FileSystem → Option (Place × Node × Bytes) → FileSystem × Bool
create_under fs none = (fs, false)
create_under fs (some (at, parent, leaf)) =
    (update fs at (edit_child (lowered leaf) (new_directory leaf)), true)

unfoldable pub create_directory : Platform → FileSystem → Bytes → FileSystem × Bool
create_directory p fs path = create_under fs (resolve_parent p fs (p.ucs2_to_utf8 path))

-- One round of the loop: the child is a directory from here on, named if it is new.
abbrev pub path_directory : Bytes → Node → Node
path_directory part n = set_dir true (if is_empty (name n) then set_name part n else n)

unfoldable pub make_path : Node → List Bytes → Node
make_path at [] = at
make_path at (part ∷ parts) =
    set_children
      (put (lowered part)
        (make_path (path_directory part (or_empty (find (lowered part) (children at)))) parts)
        (children at))
      at

-- The path is taken as it is given, whatever the version.
unfoldable pub create_directories : Platform → FileSystem → Bytes → FileSystem × Bool
create_directories p fs path =
    let s = split_path (p.ucs2_to_utf8 path) in
    if not s.ok then (fs, false) else elim (drive_of fs s.drive_letter) [
      | none ↦ (fs, false)
      | some drv ↦ (record fs { roots = set fs.roots drv (make_path (root fs drv) s.parts) }, true)
    ]

-- `eka2l1::entry_info`, as `get_entry_info` fills it; `last_write` is always 0.
pub record EntryInfo : Type 0 where
  pub is_directory : Bool
  pub size : ℕ
  pub full_path : Bytes
  pub name : Bytes
  pub last_write : ℕ
  pub attribute : Attributes

unfoldable pub get_entry_info : Platform → FileSystem → Bytes → Option EntryInfo
get_entry_info p fs path =
    let utf8 = p.ucs2_to_utf8 path in
    Option.map
      (λ (at, n). record {
        is_directory = is_dir n;
        size = if is_dir n then 0 else size n;
        full_path = utf8;
        name = p.filename utf8;
        last_write = 0;
        attribute = (mapping fs ((split_path utf8).drive_letter - b'a')).drive.attribute;
      })
      (resolve p fs utf8)

-- `read_whole`: none for false.
unfoldable pub read_whole : Platform → FileSystem → Bytes → Option Bytes
read_whole p fs path = elim (resolve p fs path) [
  | none ↦ none
  | some (at, n) ↦ if is_dir n then none else some (content n)
]

unfoldable pub list_names : Platform → FileSystem → Bytes → List Bytes
list_names p fs path = elim (resolve p fs path) [
  | none ↦ []
  | some (at, n) ↦ if is_dir n then child_names (children n) else []
]

-- The loops over `roots_` and `mappings_` side by side, from drive `i` on.
abbrev pub over_drives {ℓ} :
    {A : Type ℓ} → (ℕ → Node → A → A) → ℕ → List Node → List Mapping → A → A
over_drives step i [] ms acc = acc
over_drives step i (r ∷ roots) [] acc = acc
over_drives step i (r ∷ roots) (m ∷ ms) acc =
    over_drives step (suc i) roots ms (if m.mounted then step i r acc else acc)

unfoldable pub entry_count : FileSystem → ℕ
unfolding count_entries
entry_count fs = over_drives (λ i r total. total + (count_entries r - 1)) 0 fs.roots fs.mappings 0

unfoldable pub written_bytes : FileSystem → ℕ
unfolding count_written
written_bytes fs = over_drives (λ i r total. total + count_written r) 0 fs.roots fs.mappings 0

-- What the visitor is called with, in order.
unfoldable pub each_file : FileSystem → List (Bytes × Bytes)
unfolding walk_files
each_file fs =
    over_drives (λ i r seen. seen ++ walk_files (children r) ((b'A' + i) ∷ codes ":\\")) 0 fs.roots
      fs.mappings []
