-- ===== src/Memfs/Resolve/Parent.antt =====
-- Paths whose parent `resolve_parent` of waterbox/memfs.cpp finds, by their pointers.
use mathlib.Core.Option
use mathlib.Core.List.{map-append}
use chimera_core_eka2l.Prelude.{
  ℕ, ◌<◌, ◌≡◌, refl, ◌∙◌, ap, sym, subst, Bool, true, false, Option, some, List, [], ◌∷◌, ◌++◌, map,
  Bytes, arith, Option-cases, inl, inr,
}
use chimera_core_eka2l.Memfs.Path.{lowered, split_path}
use chimera_core_eka2l.Memfs.Node.{Node, walk}
use chimera_core_eka2l.Memfs.Types.{Platform, FileSystem, Place, root, node_at, update, drives}
use chimera_core_eka2l.Memfs.Resolve.{
  looked_up, drive_of, descend, resolve, resolve_parent, back, pop_back, child,
}
use chimera_core_eka2l.Memfs.Resolve.Laws.{
  place, place_of, with_node, resolve-eq, parent_in, pop_back-back,
}

pub drive_of-lt : (fs : FileSystem) (letter drv : ℕ) → drive_of fs letter ≡ some drv → drv < drives
unfolding drive_of
drive_of-lt fs letter drv h = ground arith

-- What a parent that is found says of the split path.
record Found (fs : FileSystem) (letter : ℕ) (parts : List Bytes) (at : Place) (leaf : Bytes)
    : Type 0 where
  bound : at.drive < drives
  here : place fs letter parts ≡ some (child at (lowered leaf))

place-snoc :
    (fs : FileSystem) (letter drv : ℕ) (parts : List Bytes) (leaf : Bytes)
    → drive_of fs letter ≡ some drv
    → place fs letter (parts ++ leaf ∷ [])
      ≡ some (child (record { drive = drv; keys = map lowered parts }) (lowered leaf))
unfolding place
place-snoc fs letter drv parts leaf h = ground (arith, map-append lowered parts (leaf ∷ []))

parent_in-Found :
    (fs : FileSystem) (ok : Bool) (letter : ℕ) (parts : List Bytes) (leaf : Bytes) (at : Place)
    (parent : Node)
    → parent_in fs ok letter parts ≡ some (at, parent, leaf)
    → Found fs letter parts at leaf × (ok ≡ true)
unfolding descend
parent_in-Found fs false letter parts leaf at parent h = cc
parent_in-Found fs true letter [] leaf at parent h = cc
parent_in-Found fs true letter (part ∷ parts) leaf at parent h =
    elim (Option-cases (drive_of fs letter)) [
      | inl missing ↦ absurd (ground arith)
      | inr (drv, found) ↦ elim (Option-cases (walk (root fs drv) (pop_back (part ∷ parts)))) [
        | inl gone ↦ absurd (ground arith)
        | inr (m, there) ↦
            let e : ◌≡◌ {A = Option (Place × Node × Bytes)}
                (some (
                  record { drive = drv; keys = map lowered (pop_back (part ∷ parts)) },
                  m,
                  back (part ∷ parts),
                ))
                (some (at, parent, leaf)) =
              ground arith in
            let e-at : ◌≡◌ {A = Place}
                (record { drive = drv; keys = map lowered (pop_back (part ∷ parts)) }) at =
              cc e in
            let e-leaf : back (part ∷ parts) ≡ leaf = cc e in
            (
              record {
                bound = subst (λ x. x.drive < drives) e-at (drive_of-lt fs letter drv found);
                here =
                    ap (place fs letter) (sym (pop_back-back part parts))
                    ∙ place-snoc fs letter drv (pop_back (part ∷ parts)) (back (part ∷ parts)) found
                    ∙ cc (e-at, e-leaf);
              },
              refl,
            )
      ]
    ]

-- The pointer that the path stands for is the parent's child of the last name.
pub place_of-parent :
    (p : Platform) (fs : FileSystem) (raw leaf : Bytes) (at : Place) (parent : Node)
    → resolve_parent p fs raw ≡ some (at, parent, leaf)
    → (place_of p fs raw ≡ some (child at (lowered leaf))) × (at.drive < drives)
unfolding resolve_parent place_of
place_of-parent p fs raw leaf at parent h =
    let s = split_path (looked_up p fs raw) in
    let found = parent_in-Found fs s.ok s.drive_letter s.parts leaf at parent h in
    (rw (found.1, place_of) found.0.here, found.0.bound)

-- A write through a pointer moves no path.
pub place_of-update :
    (p : Platform) (fs : FileSystem) (at : Place) (g : Node → Node) (raw : Bytes)
    → place_of p (update fs at g) raw ≡ place_of p fs raw
unfolding place_of place drive_of looked_up update
place_of-update p fs at g raw = refl

-- What a path leads to is what its pointer leads to.
pub resolve_at :
    (p : Platform) (fs : FileSystem) (raw : Bytes) (at : Place)
    → place_of p fs raw ≡ some at
    → resolve p fs raw ≡ Option.map (λ n. (at, n)) (node_at fs at)
resolve_at p fs raw at h = resolve-eq p fs raw ∙ ap (with_node fs) h
