-- ===== src/Memfs/Node/Tree.antt =====
-- The shape of the tree: at every level the map is in order, and a child stands under its name in
-- lower case.
use chimera_core_eka2l.Prelude.{
  ◌≡◌, refl, ◌∙◌, sym, subst, some, List, [], ◌∷◌, Bytes, eqb, less, eqb_iff, arith, Bool-cases,
  Option-cases, inl, inr,
}
use chimera_core_eka2l.Memfs.Path.{lowered}
use chimera_core_eka2l.Memfs.Node.{
  Node, node, Children, nil, cons, name, children, set_children, or_empty, find, put, erase, look,
  modify,
}
use chimera_core_eka2l.Memfs.Node.Map.{IsOrdered, put-IsOrdered, erase-IsOrdered}

abbrev mutual
  pub IsTree : Node → Type 0
  IsTree (node n d c b f) = IsOrdered c × AreTrees c

  pub AreTrees : Children → Type 0
  AreTrees nil = Unit
  AreTrees (cons k n c) = (k ≡ lowered (name n)) × IsTree n × AreTrees c

pub find-IsTree :
    (k : Bytes) (c : Children) (n : Node)
    → AreTrees c
    → find k c ≡ some n
    → IsTree n × (k ≡ lowered (name n))
unfolding find
find-IsTree k nil n t h = cc
find-IsTree k (cons j m c) n t h = elim (Bool-cases (eqb j k)) [
  | inl same ↦
      let e : m ≡ n = ground arith in
      let j=k : j ≡ k = (eqb_iff j k).0 same in
      subst (λ x. IsTree x × (k ≡ lowered (name x))) e (t.1, sym j=k ∙ t.0)
  | inr other ↦ find-IsTree k c n t.2 (ground arith)
]

put-AreTrees :
    (k : Bytes) (n : Node) (c : Children)
    → k ≡ lowered (name n)
    → IsTree n
    → AreTrees c
    → AreTrees (put k n c)
unfolding put
put-AreTrees k n nil e h t = (e, h, tt)
put-AreTrees k n (cons j m c) e h t = elim (Bool-cases (eqb j k)) [
  | inl same ↦ rw same (e, h, t.2)
  | inr other ↦ elim (Bool-cases (less k j)) [
    | inl before ↦ rw (other, before) (e, h, t)
    | inr after ↦ rw (other, after) (t.0, t.1, put-AreTrees k n c e h t.2)
  ]
]

erase-AreTrees : (k : Bytes) (c : Children) → AreTrees c → AreTrees (erase k c)
unfolding erase
erase-AreTrees k nil t = tt
erase-AreTrees k (cons j m c) t = elim (Bool-cases (eqb j k)) [
  | inl same ↦ rw same t.2
  | inr other ↦ rw other (t.0, t.1, erase-AreTrees k c t.2)
]

-- A child stored under the key of its name.
pub put-IsTree :
    (k : Bytes) (m n : Node)
    → k ≡ lowered (name m)
    → IsTree m
    → IsTree n
    → IsTree (set_children (put k m (children n)) n)
put-IsTree k m (node a d c b f) e h t = (put-IsOrdered k m c t.0, put-AreTrees k m c e h t.1)

pub erase-IsTree :
    (k : Bytes) (n : Node) → IsTree n → IsTree (set_children (erase k (children n)) n)
erase-IsTree k (node a d c b f) t = (erase-IsOrdered k c t.0, erase-AreTrees k c t.1)

pub or_empty-IsTree : (k : Bytes) (n : Node) → IsTree n → IsTree (or_empty (find k (children n)))
or_empty-IsTree k (node a d c b f) t = elim (Option-cases (find k c)) [
  | inl missing ↦ rw missing (tt, tt)
  | inr (m, found) ↦ rw found (find-IsTree k c m t.1 found).0
]

-- A change of one node that keeps the shape and the name's key.
pub record KeepsTree (g : Node → Node) : Type 0 where
  pub tree : (n : Node) → IsTree n → IsTree (g n)
  pub key : (n : Node) → lowered (name (g n)) ≡ lowered (name n)

set_children_name : (c : Children) (n : Node) → name (set_children c n) ≡ name n
set_children_name c (node a d e b f) = refl

modify_name :
    (g : Node → Node) (keep : KeepsTree g) (n : Node) (keys : List Bytes)
    → lowered (name (modify g n keys)) ≡ lowered (name n)
unfolding modify
modify_name g keep n [] = keep.key n
modify_name g keep (node a d c b f) (k ∷ keys) = elim (Option-cases (find k c)) [
  | inl missing ↦ ground arith
  | inr (m, found) ↦ ground arith
]

pub modify-IsTree :
    (g : Node → Node) (keep : KeepsTree g) (n : Node) (keys : List Bytes)
    → IsTree n
    → IsTree (modify g n keys)
unfolding modify
modify-IsTree g keep n [] t = keep.tree n t
modify-IsTree g keep (node a d c b f) (k ∷ keys) t = elim (Option-cases (find k c)) [
  | inl missing ↦ rw (missing, modify) t
  | inr (m, found) ↦
      let h = find-IsTree k c m t.1 found in
      rw (found, modify)
        (put-IsTree k (modify g m keys) (node a d c b f) (h.1 ∙ sym (modify_name g keep m keys))
          (modify-IsTree g keep m keys h.0) t)
]

pub look-IsTree : (n m : Node) (keys : List Bytes) → IsTree n → look n keys ≡ some m → IsTree m
unfolding look
look-IsTree n m [] t h = let e : n ≡ m = ground arith in subst IsTree e t
look-IsTree (node a d c b f) m (k ∷ keys) t h = elim (Option-cases (find k c)) [
  | inl missing ↦ absurd (ground arith)
  | inr (x, found) ↦ look-IsTree x m keys (find-IsTree k c x t.1 found).0 (ground arith)
]
