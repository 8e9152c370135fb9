-- ===== src/Memfs/Types/Update.antt =====
-- Reads and writes through the pointers of waterbox/memfs.cpp (`memory_node *`).
use mathlib.Core.Option
use native.Mathlib.Decide.{ℕ_discrete}
use chimera_core_eka2l.Prelude.{
  ℕ, zero, suc, ◌<◌, ◌≡◌, ◌≢◌, refl, ◌∙◌, ap, sym, ◌⊎◌, inl, inr, List, [], ◌∷◌, ◌++◌, Bytes, arith,
  length, get_or, set,
}
use chimera_core_eka2l.Memfs.Node.{Node, empty_node, look, modify}
use chimera_core_eka2l.Memfs.Node.Walk.{
  look-modify, look-modify-Diverge, look-append, look-modify_child, OnlyChild, Diverge,
}
use chimera_core_eka2l.Memfs.Types.{FileSystem, Place, root, node_at, update}

pub get_or-set_self {ℓ} :
    {A : Type ℓ} (xs : List A) (i : ℕ) (v d : A) → i < length xs → get_or (set xs i v) i d ≡ v
get_or-set_self [] i v d h = elim h [ ]
get_or-set_self (x ∷ xs) zero v d h = refl
get_or-set_self (x ∷ xs) (suc i) v d h = get_or-set_self xs i v d (omega arith)

pub get_or-set_ne {ℓ} :
    {A : Type ℓ} (xs : List A) (i j : ℕ) (v d : A) → i ≢ j → get_or (set xs i v) j d ≡ get_or xs j d
get_or-set_ne [] i j v d h = refl
get_or-set_ne (x ∷ xs) zero zero v d h = absurd (h refl)
get_or-set_ne (x ∷ xs) zero (suc j) v d h = refl
get_or-set_ne (x ∷ xs) (suc i) zero v d h = refl
get_or-set_ne (x ∷ xs) (suc i) (suc j) v d h = get_or-set_ne xs i j v d (λ e. h (ap suc e))

module _ (fs : FileSystem) (at : Place) (g : Node → Node) where
  -- A write through a pointer is read back through it.
  pub node_at-update :
      at.drive < length fs.roots → node_at (update fs at g) at ≡ Option.map g (node_at fs at)
  unfolding node_at update
  node_at-update h =
      ap (λ r. look r at.keys)
        (get_or-set_self fs.roots at.drive (modify g (root fs at.drive) at.keys) _ h)
      ∙ look-modify g (root fs at.drive) at.keys

  -- And from the nodes below it.
  pub node_at-update_below :
      (more : List Bytes)
      → at.drive < length fs.roots
      → node_at (update fs at g) (record at { keys = at.keys ++ more })
        ≡ Option.bind (Option.map g (node_at fs at)) (λ n. look n more)
  unfolding node_at update
  node_at-update_below more h =
      look-append (root (update fs at g) at.drive) at.keys more
      ∙ ap (λ o. Option.bind o (λ n. look n more)) (node_at-update h)

-- Two pointers that lead to different subtrees.
abbrev pub Apart : Place → Place → Type 0
Apart a b = (a.drive ≢ b.drive) ⊎ Diverge a.keys b.keys

-- Through any other pointer nothing changes.
pub node_at-update-Apart :
    (fs : FileSystem) (at other : Place) (g : Node → Node)
    → at.drive < length fs.roots
    → Apart at other
    → node_at (update fs at g) other ≡ node_at fs other
unfolding node_at update
node_at-update-Apart fs at other g h (inl e) =
    ap (λ r. look r other.keys) (get_or-set_ne fs.roots at.drive other.drive _ _ e)
node_at-update-Apart fs at other g h (inr d) = elim (ℕ_discrete at.drive other.drive) [
  | yes same ↦
      ap
        (λ i.
          look (get_or (set fs.roots at.drive (modify g (root fs at.drive) at.keys)) i empty_node)
            other.keys)
        (sym same)
      ∙ ap (λ r. look r other.keys) (get_or-set_self fs.roots at.drive _ _ h)
      ∙ look-modify-Diverge g (root fs at.drive) at.keys other.keys d
      ∙ ap (λ i. look (root fs i) other.keys) same
  | no other_drive ↦
      ap (λ r. look r other.keys) (get_or-set_ne fs.roots at.drive other.drive _ _ other_drive)
]

-- A change of one child leaves alone what does not lie at or below that child.
pub node_at-update_child :
    (fs : FileSystem) (at other : Place) (k : Bytes) (g : Node → Node)
    → at.drive < length fs.roots
    → OnlyChild k g
    → Apart (record at { keys = at.keys ++ k ∷ [] }) other
    → node_at (update fs at g) other ≡ node_at fs other
unfolding node_at update
node_at-update_child fs at other k g h only (inl e) =
    ap (λ r. look r other.keys) (get_or-set_ne fs.roots at.drive other.drive _ _ e)
node_at-update_child fs at other k g h only (inr d) = elim (ℕ_discrete at.drive other.drive) [
  | yes same ↦
      ap
        (λ i.
          look (get_or (set fs.roots at.drive (modify g (root fs at.drive) at.keys)) i empty_node)
            other.keys)
        (sym same)
      ∙ ap (λ r. look r other.keys) (get_or-set_self fs.roots at.drive _ _ h)
      ∙ look-modify_child g k (root fs at.drive) at.keys other.keys only d
      ∙ ap (λ i. look (root fs i) other.keys) same
  | no other_drive ↦
      ap (λ r. look r other.keys) (get_or-set_ne fs.roots at.drive other.drive _ _ other_drive)
]
