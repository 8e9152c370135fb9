-- ===== src/Memfs/Node/Walk.antt =====
-- Pointers into the tree: what a walk finds, and what a write through a pointer changes.
use mathlib.Core.Option
use chimera_core_eka2l.Prelude.{
  ◌≡◌, ◌≢◌, refl, false, Option, none, some, List, [], ◌∷◌, ◌++◌, map, Bytes, eqb, eqb_iff,
  eqb_refl, arith, Option-cases, ap, sym, ◌∙◌, inl, inr, ◌⊎◌,
}
use chimera_core_eka2l.Memfs.Path.{lowered}
use chimera_core_eka2l.Memfs.Node.{Node, node, children, find, walk, look, modify}
use chimera_core_eka2l.Memfs.Node.Map.{find-put}

pub walk-eq-look : (n : Node) (parts : List Bytes) → walk n parts ≡ look n (map lowered parts)
unfolding walk look
walk-eq-look n [] = refl
walk-eq-look n (part ∷ parts) =
    elim (find (lowered part) (children n))
      as (λ o.
        (elim o [ none ↦ none | some m ↦ walk m parts ])
        ≡ (elim o [ none ↦ none | some m ↦ look m (map lowered parts) ])) [
          | none ↦ refl
          | some m ↦ walk-eq-look m parts
        ]

-- A write through a pointer is seen through it.
pub look-modify :
    (g : Node → Node) (n : Node) (keys : List Bytes)
    → look (modify g n keys) keys ≡ Option.map g (look n keys)
unfolding look modify
look-modify g n [] = refl
look-modify g (node a d c b f) (k ∷ keys) = elim (Option-cases (find k c)) [
  | inl missing ↦ ground arith
  | inr (m, found) ↦
      ground (arith, look-modify g m keys, find-put k k (modify g m keys) c, eqb_refl k)
]

-- Two pointers part ways: they agree up to a node and name different children of it.
abbrev pub Diverge : List Bytes → List Bytes → Type 0
Diverge [] js = ⊥
Diverge (k ∷ keys) [] = ⊥
Diverge (k ∷ keys) (j ∷ js) = (k ≢ j) ⊎ ((k ≡ j) × Diverge keys js)

-- And elsewhere it is not.
pub look-modify-Diverge :
    (g : Node → Node) (n : Node) (keys js : List Bytes)
    → Diverge keys js
    → look (modify g n keys) js ≡ look n js
unfolding look modify
look-modify-Diverge g n [] js d = absurd d
look-modify-Diverge g n (k ∷ keys) [] d = absurd d
look-modify-Diverge g (node a e c b f) (k ∷ keys) (j ∷ js) d = elim (Option-cases (find k c)) [
  | inl missing ↦ ground arith
  | inr (m, found) ↦
      ground (arith, look-modify-Diverge g m keys js, find-put j k (modify g m keys) c, eqb_iff k j)
]

pub look-append :
    (n : Node) (keys more : List Bytes)
    → look n (keys ++ more) ≡ Option.bind (look n keys) (λ m. look m more)
unfolding look Option.bind
look-append n [] more = refl
look-append (node a e c b f) (k ∷ keys) more = elim (Option-cases (find k c)) [
  | inl missing ↦ ground arith
  | inr (m, found) ↦ ground (arith, look-append m keys more)
]

-- A change of one child under the key `k`.
abbrev pub OnlyChild : Bytes → (Node → Node) → Type 0
OnlyChild k g =
    (n : Node) (j : Bytes) → eqb k j ≡ false → find j (children (g n)) ≡ find j (children n)

abbrev pub next : Option Node → List Bytes → Option Node
next none js = none
next (some m) js = look m js

pub look-cons :
    (n : Node) (j : Bytes) (js : List Bytes) → look n (j ∷ js) ≡ next (find j (children n)) js
unfolding look
look-cons n j js = elim (Option-cases (find j (children n))) [
  | inl missing ↦ ground arith
  | inr (m, found) ↦ ground arith
]

eqb_ne : (k j : Bytes) → k ≢ j → eqb k j ≡ false
eqb_ne k j h = ground (arith, eqb_iff k j)

-- Such a change of one node leaves alone all that does not lie at or below that child.
pub look-modify_child :
    (g : Node → Node) (k : Bytes) (n : Node) (keys js : List Bytes)
    → OnlyChild k g
    → Diverge (keys ++ k ∷ []) js
    → look (modify g n keys) js ≡ look n js
unfolding modify look
look-modify_child g k n [] [] only d = absurd d
look-modify_child g k n [] (j ∷ js) only (inl d) =
    look-cons (g n) j js ∙ ap (λ o. next o js) (only n j (eqb_ne k j d)) ∙ sym (look-cons n j js)
look-modify_child g k n [] (j ∷ js) only (inr d) = absurd d.1
look-modify_child g k n (i ∷ keys) [] only d = absurd d
look-modify_child g k (node a e c b f) (i ∷ keys) (j ∷ js) only d = elim (Option-cases (find i c)) [
  | inl missing ↦ ground arith
  | inr (m, found) ↦
      ground
        (arith, look-modify_child g k m keys js only, find-put j i (modify g m keys) c, eqb_iff i j)
]
