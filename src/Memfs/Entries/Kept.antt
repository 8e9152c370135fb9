-- ===== src/Memfs/Entries/Kept.antt =====
-- What the loop of `create_directories` (waterbox/memfs.cpp) keeps of a tree.
use mathlib.Core.Option.{some-injective}
use chimera_core_eka2l.Prelude.{
  ◌≡◌, refl, ◌∙◌, sym, ap, subst, Bool, true, Option, none, some, List, [], ◌∷◌, map, Bytes, ◌⊎◌,
  eqb, eqb_iff, is_empty, if◌then◌else◌, Bool-cases, inl, inr,
}
use chimera_core_eka2l.Memfs.Path.{lowered}
use chimera_core_eka2l.Memfs.Node.{Node, node, Children, is_dir, content, or_empty, find, put, look}
use chimera_core_eka2l.Memfs.Node.Map.{find-put}
use chimera_core_eka2l.Memfs.Node.Walk.{next, look-cons}
use chimera_core_eka2l.Memfs.Entries.{path_directory, make_path}

-- The keys lead to an entry on the way.
abbrev pub OnWay : List Bytes → List Bytes → Type 0
OnWay [] way = Unit
OnWay (k ∷ keys) [] = ⊥
OnWay (k ∷ keys) (l ∷ way) = (k ≡ l) × OnWay keys way

-- An entry with the same content that is a directory just where it was one, or has become one on the
-- way.
abbrev pub KeptAs : List Bytes → List Bytes → Node → Node → Type 0
KeptAs way keys m m' =
    (content m' ≡ content m) × ((is_dir m' ≡ is_dir m) ⊎ (OnWay keys way × (is_dir m' ≡ true)))

-- A tree in which every entry of another is kept, where a way is made.
abbrev pub Kept : List Bytes → Node → Node → Type 0
Kept way n n' =
    (keys : List Bytes) (m : Node)
    → look n keys ≡ some m
    → (m' : Node) × (look n' keys ≡ some m') × KeptAs way keys m m'

Kept-refl : (way : List Bytes) (n : Node) → Kept way n n
Kept-refl way n keys m h = (m, h, (refl, inl refl))

KeptAs-trans :
    (way keys : List Bytes) (a b c : Node)
    → KeptAs way keys a b
    → KeptAs way keys b c
    → KeptAs way keys a c
KeptAs-trans way keys a b c (e, d) (f, inr t) = (f ∙ e, inr t)
KeptAs-trans way keys a b c (e, inl d) (f, inl g) = (f ∙ e, inl (g ∙ d))
KeptAs-trans way keys a b c (e, inr (on, d)) (f, inl g) = (f ∙ e, inr (on, g ∙ d))

Kept-trans : (way : List Bytes) (a b c : Node) → Kept way a b → Kept way b c → Kept way a c
Kept-trans way a b c k l keys m h =
    let (m', h', e) = k keys m h in
    let (m2, h2, e2) = l keys m' h' in (m2, h2, KeptAs-trans way keys m m' m2 e e2)

-- The same children and content keep everything, where the node becomes a directory on the way.
Kept-same :
    (way : List Bytes) (a : Bool) (s t : Bytes) (c : Children) (b : Bytes) (f : Option Bytes)
    → Kept way (node s a c b f) (node t true c b f)
unfolding look
Kept-same way a s t c b none [] m h = (
  node t true c b none,
  refl,
  (ap content (some-injective (node s a c b none) m h), inr (tt, refl)),
)
Kept-same way a s t c b (some v) [] m h = (
  node t true c b (some v),
  refl,
  (ap content (some-injective (node s a c b (some v)) m h), inr (tt, refl)),
)
Kept-same way a s t c b f (k ∷ keys) m h = (m, h, (refl, inl refl))

path_directory-Kept :
    (way : List Bytes) (part : Bytes) (n : Node) → Kept way n (path_directory part n)
path_directory-Kept way part (node s a c b f) = elim (Bool-cases (is_empty s)) [
  | inl new ↦ rw new (Kept-same way a s part c b f)
  | inr named ↦ rw named (Kept-same way a s s c b f)
]

child-Kept :
    (way : List Bytes) (o : Option Node) (x : Node) (keys : List Bytes) (m : Node)
    → Kept way (or_empty o) x
    → next o keys ≡ some m
    → (m' : Node) × (look x keys ≡ some m') × KeptAs way keys m m'
child-Kept way none x keys m kept h = cc
child-Kept way (some y) x keys m kept h = kept keys m h

under :
    (k l : Bytes) (way keys : List Bytes) (m m' : Node)
    → k ≡ l
    → KeptAs way keys m m'
    → KeptAs (k ∷ way) (l ∷ keys) m m'
under k l way keys m m' e (c, inl d) = (c, inl d)
under k l way keys m m' e (c, inr (on, d)) = (c, inr ((sym e, on), d))

-- A child replaced by one that keeps what it had.
put-Kept :
    (way : List Bytes) (k : Bytes) (x : Node) (s : Bytes) (a : Bool) (c : Children) (b : Bytes)
    (f : Option Bytes)
    → Kept way (or_empty (find k c)) x
    → Kept (k ∷ way) (node s a c b f) (node s a (put k x c) b f)
unfolding look
put-Kept way k x s a c b none kept [] m h =
    let same = some-injective (node s a c b none) m h in
    (node s a (put k x c) b none, refl, (ap content same, inl (ap is_dir same)))
put-Kept way k x s a c b (some v) kept [] m h =
    let same = some-injective (node s a c b (some v)) m h in
    (node s a (put k x c) b (some v), refl, (ap content same, inl (ap is_dir same)))
put-Kept way k x s a c b f kept (j ∷ keys) m h =
    let there : look (node s a (put k x c) b f) (j ∷ keys)
        ≡ next (if eqb k j then some x else find j c) keys =
      look-cons (node s a (put k x c) b f) j keys ∙ ap (λ o. next o keys) (find-put j k x c) in
    let was : next (find j c) keys ≡ some m = sym (look-cons (node s a c b f) j keys) ∙ h in
    elim (Bool-cases (eqb k j)) [
      | inl same ↦
          let old =
            child-Kept way (find j c) x keys m
              (subst (λ i. Kept way (or_empty (find i c)) x) ((eqb_iff k j).0 same) kept) was in
          (
            old.0,
            there ∙ ap (λ b. next (if b then some x else find j c) keys) same ∙ old.1,
            under k j way keys m old.0 ((eqb_iff k j).0 same) old.2,
          )
      | inr other ↦ (
        m,
        there ∙ ap (λ b. next (if b then some x else find j c) keys) other ∙ was,
        (refl, inl refl),
      )
    ]

pub make_path-Kept :
    (n : Node) (parts : List Bytes) → Kept (map lowered parts) n (make_path n parts)
unfolding make_path
make_path-Kept n [] = Kept-refl [] n
make_path-Kept (node s a c b f) (part ∷ parts) =
    let old = or_empty (find (lowered part) c) in
    let way = map lowered parts in
    put-Kept way (lowered part) (make_path (path_directory part old) parts) s a c b f (
      Kept-trans way old (path_directory part old) (make_path (path_directory part old) parts)
        (path_directory-Kept way part old) (make_path-Kept (path_directory part old) parts))
