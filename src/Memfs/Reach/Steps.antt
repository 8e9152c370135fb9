-- ===== src/Memfs/Reach/Steps.antt =====
-- The invariant over the loops of waterbox/memfs.cpp: `create_directories` and `mount_rpkg`.
use chimera_core_eka2l.Prelude.{
  ℕ, zero, suc, ◌+◌, ◌*◌, ◌%◌, ◌≡◌, refl, ◌∙◌, ap, sym, subst, Bool, true, false, not, Option, List,
  [], ◌∷◌, ◌++◌, map, Bytes, codes, if◌then◌else◌, arith, is_empty, Bool-cases, Option-cases, inl,
  inr, set, length, take, drop, ltb, leb, All, Outcome, returns, throws, undefined,
}
use chimera_core_eka2l.Memfs.Path.{lowered, split_path}
use chimera_core_eka2l.Memfs.Path.Case.{split_path-lowered, lowered-lowered}
use chimera_core_eka2l.Memfs.Node.{
  Node, node, Children, name, children, set_name, set_dir, set_children, or_empty, find,
}
use chimera_core_eka2l.Memfs.Node.Tree.{IsTree, find-IsTree, put-IsTree, or_empty-IsTree}
use chimera_core_eka2l.Memfs.Types.{Platform, FileSystem, root}
use chimera_core_eka2l.Memfs.Types.WellFormed.{IsWellFormed, root-IsTree, set_root-IsWellFormed}
use chimera_core_eka2l.Memfs.Resolve.{drive_of}
use chimera_core_eka2l.Memfs.Entries.{path_directory, make_path, create_directories}
use chimera_core_eka2l.Memfs.Rpkg.{
  relative_path, part_node, place_file, file_parts, read_entries, mounted, field, u64, u16_limit,
}

set_children-name : (c : Children) (n : Node) → name (set_children c n) ≡ name n
set_children-name c (node a d e b f) = refl

-- The child that a loop finds or makes under the key `k`, named `part` if it has no name yet.
module _ (k part : Bytes) (part-key : lowered part ≡ k) where
  named :
      (d : Bool) (n : Node)
      → name (set_dir d (if is_empty (name n) then set_name part n else n))
        ≡ (if is_empty (name n) then part else name n)
  named d (node a e c b f) = ground arith

  named_child :
      (d : Bool) (n : Node)
      → IsTree n
      → let m = or_empty (find k (children n)) in
        lowered (name (set_dir d (if is_empty (name m) then set_name part m else m))) ≡ k
  named_child d (node a e c b f) t = elim (Option-cases (find k c)) [
    | inl missing ↦ rw missing part-key
    | inr (m, found) ↦
        rw found (rw (named d m) (ground (arith, (find-IsTree k c m t.1 found).1, part-key)))
  ]

  child-IsTree :
      (d : Bool) (n : Node)
      → IsTree n
      → let m = or_empty (find k (children n)) in
        IsTree (set_dir d (if is_empty (name m) then set_name part m else m))
  child-IsTree d n t = go (or_empty (find k (children n))) (or_empty-IsTree k n t)
    where
      go :
          (m : Node)
          → IsTree m
          → IsTree (set_dir d (if is_empty (name m) then set_name part m else m))
      go (node a e c b f) t' = elim (Bool-cases (is_empty a)) [
        | inl new ↦ rw new t'
        | inr old ↦ rw old t'
      ]

make_path-name : (n : Node) (parts : List Bytes) → name (make_path n parts) ≡ name n
unfolding make_path
make_path-name n [] = refl
make_path-name (node a d c b f) (part ∷ parts) = refl

make_path-IsTree : (n : Node) (parts : List Bytes) → IsTree n → IsTree (make_path n parts)
unfolding make_path
make_path-IsTree n [] t = t
make_path-IsTree n (part ∷ parts) t =
    let k = lowered part in
    let m = path_directory part (or_empty (find k (children n))) in
    put-IsTree k (make_path m parts) n
      (sym (ap lowered (make_path-name m parts) ∙ named_child k part refl true n t))
      (make_path-IsTree m parts (child-IsTree k part refl true n t)) t

pub create_directories-IsWellFormed :
    (p : Platform) {fs : FileSystem} (path : Bytes)
    → IsWellFormed fs
    → IsWellFormed (create_directories p fs path).0
unfolding create_directories
create_directories-IsWellFormed p {fs} path w =
    let s = split_path (p.ucs2_to_utf8 path) in
    elim (Bool-cases s.ok) [
      | inr bad ↦ rw (bad, create_directories) w
      | inl ok ↦ elim (Option-cases (drive_of fs s.drive_letter)) [
        | inl missing ↦ rw (ok, missing, create_directories) w
        | inr (drv, found) ↦
            rw (ok, found, create_directories)
              (set_root-IsWellFormed fs drv _ w
                (make_path-IsTree (root fs drv) s.parts (root-IsTree drv w)))
      ]
    ]

place_file-name : (v : Bytes) (n : Node) (parts : List Bytes) → name (place_file v n parts) ≡ name n
unfolding place_file
place_file-name v (node a d c b f) [] = refl
place_file-name v (node a d c b f) (part ∷ parts) = refl

-- The components of a package's paths are in lower case already.
abbrev AreLowered : List Bytes → Type 0
AreLowered = All (λ part. lowered part ≡ part)

place_file-IsTree :
    (v : Bytes) (n : Node) (parts : List Bytes)
    → AreLowered parts
    → IsTree n
    → IsTree (place_file v n parts)
unfolding place_file
place_file-IsTree v (node a d c b f) [] l t = t
place_file-IsTree v n (part ∷ parts) (l, ls) t =
    let m = part_node part parts (or_empty (find part (children n))) in
    put-IsTree part (place_file v m parts) n
      (sym (
        ap lowered (place_file-name v m parts)
        ∙ named_child part part l (not (is_empty parts)) n t))
      (place_file-IsTree v m parts ls (child-IsTree part part l (not (is_empty parts)) n t)) t

map-AreLowered : (parts : List Bytes) → AreLowered (map lowered parts)
map-AreLowered [] = tt
map-AreLowered (part ∷ parts) = (lowered-lowered part, map-AreLowered parts)

file_parts-AreLowered : (s : Bytes) → AreLowered (file_parts (lowered s))
unfolding lowered
file_parts-AreLowered s =
    subst AreLowered (sym split) (map-AreLowered (split_path (codes "z:\\" ++ s)).parts)
  where
    split : file_parts (lowered s) ≡ map lowered (split_path (codes "z:\\" ++ s)).parts
    split = ap (λ x. x.parts) (split_path-lowered (codes "z:\\" ++ s))

relative_path-AreLowered :
    (p : Platform) (n : ℕ) (path : Bytes) → AreLowered (file_parts (relative_path p n path))
relative_path-AreLowered p n path = elim (Bool-cases (ltb 3 n)) [
  | inl long ↦ rw long (file_parts-AreLowered (p.ucs2_to_utf8 (drop 6 path)))
  | inr short ↦ rw short (unfold lowered in file_parts-AreLowered [])
]

-- What a run of the loop leaves, if it ends.
abbrev pub EndsTree : Outcome (Node × ℕ) → Type 0
EndsTree (returns (n, files)) = IsTree n
EndsTree throws = Unit
EndsTree undefined = Unit

EndsTree-if :
    (b : Bool) (x y : Outcome (Node × ℕ)) → EndsTree x → EndsTree y → EndsTree (if b then x else y)
EndsTree-if true x y hx hy = hx
EndsTree-if false x y hx hy = hy

IsTree-if : (b : Bool) (x y : Node) → IsTree x → IsTree y → IsTree (if b then x else y)
IsTree-if true x y hx hy = hx
IsTree-if false x y hx hy = hy

pub read_entries-IsTree :
    (p : Platform) (fuel : ℕ) (cursor : Bytes) (n : Node) (files : ℕ)
    → IsTree n
    → EndsTree (read_entries p fuel cursor n files)
unfolding read_entries
read_entries-IsTree p zero cursor n files t = t
read_entries-IsTree p (suc fuel) cursor n files t =
    let path_len = field 16 8 cursor in
    let behind = drop (path_len * 2) (drop 24 cursor) in
    let data_size = field 0 8 behind in
    let relative = relative_path p path_len (take (path_len * 2) (drop 24 cursor)) in
    let placed = place_file (take data_size (drop 8 behind)) n (file_parts relative) in
    let placed_tree =
      place_file-IsTree (take data_size (drop 8 behind)) n (file_parts relative)
        (relative_path-AreLowered p path_len (take (path_len * 2) (drop 24 cursor))) t in
    let rest =
      read_entries-IsTree p fuel (drop data_size (drop 8 behind))
        (if is_empty (file_parts relative) then n else placed)
        (if is_empty (file_parts relative) then files else files + 1)
        (IsTree-if (is_empty (file_parts relative)) n placed t placed_tree) in
    EndsTree-if (ltb (length cursor) 24) _ _ t (
      EndsTree-if (ltb (length (drop 24 cursor)) ((path_len * 2 + 8) % u64)) _ _ t (
        EndsTree-if (leb u16_limit path_len) _ _ tt
          (EndsTree-if (ltb (length (drop 8 behind)) data_size) _ _ t rest)))

pub mounted-IsWellFormed :
    (fs : FileSystem) (drv : ℕ) (image : Bytes) (run : Outcome (Node × ℕ)) {t : FileSystem}
    {files : Option ℕ}
    → IsWellFormed fs
    → EndsTree run
    → mounted fs drv image run ≡ returns (t, files)
    → IsWellFormed t
mounted-IsWellFormed fs drv image (returns (n, k)) {t} w tree h =
    let w' = set_root-IsWellFormed fs drv n w tree in
    let e : record fs { roots = set fs.roots drv n; packages = fs.packages ++ image ∷ [] } ≡ t =
      ground arith in
    subst IsWellFormed e
      (record { all_roots = w'.all_roots; all_mappings = w.all_mappings; trees = w'.trees })
mounted-IsWellFormed fs drv image throws w tree h = cc
mounted-IsWellFormed fs drv image undefined w tree h = cc
