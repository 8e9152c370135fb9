-- ===== src/Memfs/Reach/WellFormed.antt =====
-- Every operation of waterbox/memfs.cpp keeps the invariant.
use chimera_core_eka2l.Prelude.{
  ℕ, ◌≡◌, refl, ◌∙◌, ap, sym, Bool, true, Option, none, some, [], Bytes, arith, Bool-cases,
  Option-cases, inl, inr, length-set, set, returns,
}
use chimera_core_eka2l.Memfs.Path.{lowered}
use chimera_core_eka2l.Memfs.Node.{
  Node, node, nil, name, children, set_name, set_dir, set_bytes, set_children, or_empty, find,
  erase,
}
use chimera_core_eka2l.Memfs.Node.Tree.{
  IsTree, KeepsTree, put-IsTree, erase-IsTree, or_empty-IsTree,
}
use chimera_core_eka2l.Memfs.Types.{
  Platform, FileSystem, Attributes, Media, Mode, Mapping, Place, root, mapping,
}
use chimera_core_eka2l.Memfs.Types.WellFormed.{
  IsWellFormed, root-IsTree, set_root-IsWellFormed, update-IsWellFormed,
}
use chimera_core_eka2l.Memfs.Resolve.{mount_empty, unmount, resolve, resolve_parent}
use chimera_core_eka2l.Memfs.Entries.{
  edit_child, open_node, new_file, open_missing, open_resolved, open_file, move_entry, delete_from,
  new_directory, create_under,
}

set_mapping-IsWellFormed :
    (fs : FileSystem) (drv : ℕ) (m : Mapping) (n : Node)
    → IsWellFormed fs
    → IsTree n
    → IsWellFormed (record fs { mappings = set fs.mappings drv m; roots = set fs.roots drv n })
set_mapping-IsWellFormed fs drv m n w t =
    let w' = set_root-IsWellFormed fs drv n w t in
    record {
      all_roots = w'.all_roots;
      all_mappings = length-set fs.mappings drv m ∙ w.all_mappings;
      trees = w'.trees;
    }

pub set_dir-IsTree : (d : Bool) (n : Node) → IsTree n → IsTree (set_dir d n)
set_dir-IsTree d (node a e c b f) t = t

pub set_name-IsTree : (s : Bytes) (n : Node) → IsTree n → IsTree (set_name s n)
set_name-IsTree s (node a e c b f) t = t

pub mount_empty-IsWellFormed :
    {fs : FileSystem} (drv : ℕ) (m : Media) (a : Attributes)
    → IsWellFormed fs
    → IsWellFormed (mount_empty fs drv m a).0
unfolding mount_empty
mount_empty-IsWellFormed {fs} drv m a w = elim (Bool-cases (mapping fs drv).mounted) [
  | inl mounted ↦ rw mounted w
  | inr free ↦ rw free (
      set_mapping-IsWellFormed fs drv _ _ w (set_dir-IsTree true (root fs drv) (root-IsTree drv w)))
]

pub unmount-IsWellFormed :
    {fs : FileSystem} (drv : ℕ) → IsWellFormed fs → IsWellFormed (unmount fs drv).0
unfolding unmount
unmount-IsWellFormed {fs} drv w = elim (Bool-cases (mapping fs drv).mounted) [
  | inl mounted ↦ rw mounted (set_mapping-IsWellFormed fs drv _ _ w (no_children (root fs drv)))
  | inr free ↦ rw free w
]
  where
    no_children : (n : Node) → IsTree (set_children nil n)
    no_children (node a d c b f) = (tt, tt)

pub set_bytes-KeepsTree : (v : Bytes) → KeepsTree (set_bytes v)
set_bytes-KeepsTree v = record { tree = tree; key = key }
  where
    tree : (n : Node) → IsTree n → IsTree (set_bytes v n)
    tree (node a d c b f) t = t

    key : (n : Node) → lowered (name (set_bytes v n)) ≡ lowered (name n)
    key (node a d c b f) = refl

-- A child edited under the key of the name that it gets.
edit_child-KeepsTree :
    (k : Bytes) (g : Node → Node)
    → ((n : Node) → lowered (name (g n)) ≡ k)
    → ((n : Node) → IsTree n → IsTree (g n))
    → KeepsTree (edit_child k g)
edit_child-KeepsTree k g named tree = record {
  tree = λ n t.
      put-IsTree k (g (or_empty (find k (children n)))) n (sym (named _))
        (tree _ (or_empty-IsTree k n t)) t;
  key = λ n. ap lowered (same_name n);
}
  where
    same_name : (n : Node) → name (edit_child k g n) ≡ name n
    same_name (node a d c b f) = refl

erase-KeepsTree : (k : Bytes) → KeepsTree (λ n. set_children (erase k (children n)) n)
erase-KeepsTree k = record { tree = erase-IsTree k; key = key }
  where
    key : (n : Node) → lowered (name (set_children (erase k (children n)) n)) ≡ lowered (name n)
    key (node a d c b f) = refl

new_file-name : (leaf : Bytes) (n : Node) → lowered (name (new_file leaf n)) ≡ lowered leaf
new_file-name leaf (node a d c b f) = refl

new_file-IsTree : (leaf : Bytes) (n : Node) → IsTree n → IsTree (new_file leaf n)
new_file-IsTree leaf (node a d c b f) t = t

new_directory-name :
    (leaf : Bytes) (n : Node) → lowered (name (new_directory leaf n)) ≡ lowered leaf
new_directory-name leaf (node a d c b f) = refl

new_directory-IsTree : (leaf : Bytes) (n : Node) → IsTree n → IsTree (new_directory leaf n)
new_directory-IsTree leaf (node a d c b f) t = t

open_node-IsWellFormed :
    {fs : FileSystem} (path : Bytes) (mode : Mode) (found : Option (Place × Node))
    → IsWellFormed fs
    → IsWellFormed (open_node fs path mode found).0
unfolding open_node
open_node-IsWellFormed path mode none w = w
open_node-IsWellFormed {fs} path mode (some (at, n)) w =
    ground (arith, update-IsWellFormed fs at (set_bytes []) (set_bytes-KeepsTree []) w)

open_missing-IsWellFormed :
    {fs : FileSystem} (path : Bytes) (mode : Mode) (found : Option (Place × Node × Bytes))
    → IsWellFormed fs
    → IsWellFormed (open_missing fs path mode found).0
unfolding open_missing
open_missing-IsWellFormed path mode none w = w
open_missing-IsWellFormed {fs} path mode (some (at, parent, leaf)) w =
    open_node-IsWellFormed path mode _ (
      update-IsWellFormed fs at (edit_child (lowered leaf) (new_file leaf))
        (edit_child-KeepsTree (lowered leaf) (new_file leaf) (new_file-name leaf)
          (new_file-IsTree leaf))
        w)

open_resolved-IsWellFormed :
    (p : Platform) {fs : FileSystem} (path utf8 : Bytes) (mode : Mode)
    → IsWellFormed fs
    → IsWellFormed (open_resolved p fs path utf8 mode).0
unfolding open_resolved
open_resolved-IsWellFormed p {fs} path utf8 mode w = elim (Option-cases (resolve p fs utf8)) [
  | inl missing ↦ ground (
    arith,
    open_missing-IsWellFormed path mode (resolve_parent p fs utf8) w,
    open_node-IsWellFormed path mode none w,
  )
  | inr (x, found) ↦ rw (found, open_resolved) (open_node-IsWellFormed path mode (some x) w)
]

pub open_file-IsWellFormed :
    (p : Platform) {fs : FileSystem} (path : Bytes) (mode : Mode)
    → IsWellFormed fs
    → IsWellFormed (open_file p fs path mode).0
unfolding open_file
open_file-IsWellFormed p {fs} path mode w =
    ground (arith, open_resolved-IsWellFormed p path (p.ucs2_to_utf8 path) mode w)

pub move_entry-IsWellFormed :
    (fs : FileSystem) (from : Place) (k : Bytes) (n : Node) (to : Place) (leaf : Bytes)
    {t : FileSystem} {done : Bool}
    → IsWellFormed fs
    → IsTree n
    → move_entry fs from k n to leaf ≡ returns (t, done)
    → IsWellFormed t
unfolding move_entry
move_entry-IsWellFormed fs from k n to leaf w tree h =
    let erased =
      update-IsWellFormed fs from (λ m. set_children (erase k (children m)) m) (erase-KeepsTree k)
        w in
    let placed =
      update-IsWellFormed _ to (edit_child (lowered leaf) (λ _. set_name leaf n))
        (edit_child-KeepsTree (lowered leaf) (λ _. set_name leaf n) (λ _. renamed n)
          (λ _ _. set_name-IsTree leaf n tree))
        erased in
    ground arith
  where
    renamed : (m : Node) → lowered (name (set_name leaf m)) ≡ lowered leaf
    renamed (node a d c b f) = refl

pub delete_from-IsWellFormed :
    {fs : FileSystem} (found : Option (Place × Node × Bytes))
    → IsWellFormed fs
    → IsWellFormed (delete_from fs found).0
delete_from-IsWellFormed none w = w
delete_from-IsWellFormed {fs} (some (at, parent, leaf)) w = ground (
  arith,
  update-IsWellFormed fs at (λ m. set_children (erase (lowered leaf) (children m)) m)
      (erase-KeepsTree (lowered leaf)) w,
)

pub create_under-IsWellFormed :
    {fs : FileSystem} (found : Option (Place × Node × Bytes))
    → IsWellFormed fs
    → IsWellFormed (create_under fs found).0
create_under-IsWellFormed none w = w
create_under-IsWellFormed {fs} (some (at, parent, leaf)) w =
    update-IsWellFormed fs at (edit_child (lowered leaf) (new_directory leaf))
      (edit_child-KeepsTree (lowered leaf) (new_directory leaf) (new_directory-name leaf)
        (new_directory-IsTree leaf))
      w
