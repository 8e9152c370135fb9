-- ===== src/Memfs/Resolve/Laws.antt =====
-- What `resolve` and `resolve_parent` of waterbox/memfs.cpp find, by way of the pointer that a path
-- stands for.
use mathlib.Core.Option
use mathlib.Core.List.{map-append}
use chimera_core_eka2l.Prelude.{
  ℕ, ◌≡◌, refl, ◌∙◌, ap, sym, subst, Bool, true, false, not, ◌||◌, Option, none, some, List, [],
  ◌∷◌, ◌++◌, map, Bytes, if◌then◌else◌, arith, is_empty, Option-cases, Bool-cases, inl, inr,
}
use chimera_core_eka2l.Memfs.Path.{lowered, split_path}
use chimera_core_eka2l.Memfs.Path.Case.{lowered_parts, split_path-lowered, rewrite-lowered}
use chimera_core_eka2l.Memfs.Node.{Node, node, children, find, walk, look}
use chimera_core_eka2l.Memfs.Node.Walk.{walk-eq-look}
use chimera_core_eka2l.Memfs.Types.{Platform, FileSystem, Place, root, node_at}
use chimera_core_eka2l.Memfs.Resolve.{
  looked_up, drive_of, descend, resolve, resolve_parent, back, pop_back,
}

-- The pointer of a drive letter and components, where the drive is mounted.
unfoldable pub place : FileSystem → ℕ → List Bytes → Option Place
place fs letter parts =
    Option.map (λ drv. record { drive = drv; keys = map lowered parts }) (drive_of fs letter)

-- A pointer with the node that it leads to.
abbrev pub with_node : FileSystem → Option Place → Option (Place × Node)
with_node fs none = none
with_node fs (some at) = Option.map (λ n. (at, n)) (node_at fs at)

pub descend-eq :
    (fs : FileSystem) (letter : ℕ) (parts : List Bytes)
    → descend fs letter parts ≡ with_node fs (place fs letter parts)
unfolding descend place node_at
descend-eq fs letter parts = elim (Option-cases (drive_of fs letter)) [
  | inl missing ↦ ground arith
  | inr (drv, found) ↦ ground (arith, walk-eq-look (root fs drv) parts)
]

-- The pointer that a whole path stands for: it does not depend on the tree.
unfoldable pub place_of : Platform → FileSystem → Bytes → Option Place
place_of p fs raw =
    let s = split_path (looked_up p fs raw) in
    if s.ok then place fs s.drive_letter s.parts else none

pub resolve-eq :
    (p : Platform) (fs : FileSystem) (raw : Bytes)
    → resolve p fs raw ≡ with_node fs (place_of p fs raw)
unfolding resolve place_of
resolve-eq p fs raw =
    let s = split_path (looked_up p fs raw) in
    elim (Bool-cases s.ok) [
      | inl ok ↦ rw (ok, resolve, place_of) (descend-eq fs s.drive_letter s.parts)
      | inr bad ↦ rw (bad, resolve, place_of)
    ]

descend-lowered :
    (fs : FileSystem) (letter : ℕ) (parts : List Bytes)
    → descend fs letter (map lowered parts) ≡ descend fs letter parts
unfolding descend
descend-lowered fs letter parts = elim (Option-cases (drive_of fs letter)) [
  | inl missing ↦ ground arith
  | inr (drv, found) ↦ ground (
    arith,
    walk-eq-look (root fs drv) parts,
    walk-eq-look (root fs drv) (map lowered parts),
    lowered_parts parts,
  )
]

looked_up-lowered :
    (p : Platform) (fs : FileSystem) (raw : Bytes)
    → looked_up p fs (lowered raw) ≡ lowered (looked_up p fs raw)
unfolding looked_up
looked_up-lowered p fs raw = ground (arith, rewrite-lowered raw)

-- Paths are case-insensitive: a path and the same path in lower case lead to the same entry, or
-- both to none, whatever the machine's version and whatever is mounted.
pub resolve-lowered :
    (p : Platform) (fs : FileSystem) (raw : Bytes) → resolve p fs (lowered raw) ≡ resolve p fs raw
unfolding resolve
resolve-lowered p fs raw =
    let s = split_path (looked_up p fs raw) in
    rw (looked_up-lowered p fs raw, split_path-lowered (looked_up p fs raw))
      (ground (arith, descend-lowered fs s.drive_letter s.parts))

pub pop_back-back :
    (part : Bytes) (parts : List Bytes)
    → pop_back (part ∷ parts) ++ back (part ∷ parts) ∷ [] ≡ part ∷ parts
pop_back-back part [] = refl
pop_back-back part (next ∷ parts) = ap (λ t. part ∷ t) (pop_back-back next parts)

-- What `resolve` answers for the path whose parent was found.
abbrev pub child_of : Option (Place × Node × Bytes) → Option (Place × Node)
child_of none = none
child_of (some (at, parent, leaf)) =
    Option.map (λ n. (record at { keys = at.keys ++ lowered leaf ∷ [] }, n))
      (find (lowered leaf) (children parent))

child_node : Option Node → Bytes → Option Node
child_node none k = none
child_node (some n) k = find k (children n)

walk-snoc :
    (n : Node) (parts : List Bytes) (leaf : Bytes)
    → walk n (parts ++ leaf ∷ []) ≡ child_node (walk n parts) (lowered leaf)
unfolding walk child_node
walk-snoc (node a d c b f) [] leaf = ground arith
walk-snoc (node a d c b f) (part ∷ parts) leaf = elim (Option-cases (find (lowered part) c)) [
  | inl missing ↦ ground arith
  | inr (m, found) ↦ ground (arith, walk-snoc m parts leaf)
]

descend-snoc :
    (fs : FileSystem) (letter : ℕ) (parts : List Bytes) (leaf : Bytes)
    → descend fs letter (parts ++ leaf ∷ [])
      ≡ child_of (Option.map (λ (at, n). (at, n, leaf)) (descend fs letter parts))
unfolding descend child_node
descend-snoc fs letter parts leaf = elim (Option-cases (drive_of fs letter)) [
  | inl missing ↦ ground arith
  | inr (drv, found) ↦ elim (Option-cases (walk (root fs drv) parts)) [
    | inl gone ↦ ground (arith, walk-snoc (root fs drv) parts leaf)
    | inr (n, there) ↦
        ground (arith, walk-snoc (root fs drv) parts leaf, map-append lowered parts (leaf ∷ []))
  ]
]

-- `resolve_parent` on a path that is split already.
abbrev pub parent_in : FileSystem → Bool → ℕ → List Bytes → Option (Place × Node × Bytes)
parent_in fs ok letter parts =
    if not ok || is_empty parts
    then none
    else Option.map (λ (at, n). (at, n, back parts)) (descend fs letter (pop_back parts))

descend-of_parent :
    (fs : FileSystem) (ok : Bool) (letter : ℕ) (parts : List Bytes) (x : Place × Node × Bytes)
    → parent_in fs ok letter parts ≡ some x
    → (if ok then descend fs letter parts else none) ≡ child_of (some x)
descend-of_parent fs false letter parts x h = cc
descend-of_parent fs true letter [] x h = cc
descend-of_parent fs true letter (part ∷ parts) x h =
    ap (descend fs letter) (sym (pop_back-back part parts))
    ∙ descend-snoc fs letter (pop_back (part ∷ parts)) (back (part ∷ parts))
    ∙ ap child_of h

-- Where the parent of a path is found, the path leads to the parent's child of its last name, and
-- nowhere where there is none.
pub resolve-of_parent :
    (p : Platform) (fs : FileSystem) (raw leaf : Bytes) (at : Place) (parent : Node)
    → resolve_parent p fs raw ≡ some (at, parent, leaf)
    → resolve p fs raw ≡ child_of (some (at, parent, leaf))
unfolding resolve resolve_parent
resolve-of_parent p fs raw leaf at parent h =
    let s = split_path (looked_up p fs raw) in
    descend-of_parent fs s.ok s.drive_letter s.parts (at, parent, leaf) h

descend-node_at :
    (fs : FileSystem) (letter : ℕ) (parts : List Bytes) (at : Place) (n : Node)
    → descend fs letter parts ≡ some (at, n)
    → node_at fs at ≡ some n
unfolding descend node_at
descend-node_at fs letter parts at n h = elim (Option-cases (drive_of fs letter)) [
  | inl missing ↦ absurd (ground arith)
  | inr (drv, found) ↦ elim (Option-cases (walk (root fs drv) parts)) [
    | inl gone ↦ absurd (ground arith)
    | inr (m, there) ↦
        let e : ◌≡◌ {A = Option (Place × Node)}
            (some (record { drive = drv; keys = map lowered parts }, m)) (some (at, n)) =
          ground arith in
        let e-at : ◌≡◌ {A = Place} (record { drive = drv; keys = map lowered parts }) at = cc e in
        let e-n : m ≡ n = cc e in
        subst (λ x. look (root fs x.drive) x.keys ≡ some n) e-at
          (sym (walk-eq-look (root fs drv) parts) ∙ there ∙ ap (λ x. some x) e-n)
  ]
]

parent_in-node_at :
    (fs : FileSystem) (ok : Bool) (letter : ℕ) (parts : List Bytes) (leaf : Bytes) (at : Place)
    (parent : Node)
    → parent_in fs ok letter parts ≡ some (at, parent, leaf)
    → node_at fs at ≡ some parent
parent_in-node_at fs false letter parts leaf at parent h = cc
parent_in-node_at fs true letter [] leaf at parent h = cc
parent_in-node_at fs true letter (part ∷ parts) leaf at parent h =
    elim (Option-cases (descend fs letter (pop_back (part ∷ parts)))) [
      | inl missing ↦ absurd (ground arith)
      | inr (x, found) ↦
          descend-node_at fs letter (pop_back (part ∷ parts)) at parent (found ∙ ground arith)
    ]

-- The parent that is found is what its pointer leads to.
pub parent-node_at :
    (p : Platform) (fs : FileSystem) (raw leaf : Bytes) (at : Place) (parent : Node)
    → resolve_parent p fs raw ≡ some (at, parent, leaf)
    → node_at fs at ≡ some parent
unfolding resolve_parent
parent-node_at p fs raw leaf at parent h =
    let s = split_path (looked_up p fs raw) in
    parent_in-node_at fs s.ok s.drive_letter s.parts leaf at parent h
