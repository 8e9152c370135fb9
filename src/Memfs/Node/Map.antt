-- ===== src/Memfs/Node/Map.antt =====
-- The map of children behaves as a map, and stays in order.
use chimera_core_eka2l.Prelude.{
  ◌≡◌, refl, true, false, none, some, inl, inr, Bytes, eqb, less, eqb_iff, less_trans, less_irrefl,
  less_total, if◌then◌else◌, arith, Bool-cases,
}
use chimera_core_eka2l.Memfs.Node.{Node, Children, nil, cons, find, put, erase}

pub find-put :
    (j k : Bytes) (v : Node) (c : Children)
    → find j (put k v c) ≡ (if eqb k j then some v else find j c)
unfolding find put
find-put j k v nil = refl
find-put j k v (cons i n c) =
    ground (arith, find-put j k v c, eqb_iff i k, eqb_iff i j, eqb_iff k j)

-- Every key of the map lies above `k`.
abbrev pub Above : Bytes → Children → Type 0
Above k nil = Unit
Above k (cons j n c) = (less k j ≡ true) × Above k c

-- Strictly increasing keys, so each key once.
abbrev pub IsOrdered : Children → Type 0
IsOrdered nil = Unit
IsOrdered (cons k n c) = Above k c × IsOrdered c

Above-trans : (j k : Bytes) (c : Children) → less j k ≡ true → Above k c → Above j c
Above-trans j k nil h a = tt
Above-trans j k (cons i n c) h a = (less_trans j k i h a.0, Above-trans j k c h a.1)

Above-put :
    (j k : Bytes) (v : Node) (c : Children) → less j k ≡ true → Above j c → Above j (put k v c)
unfolding put
Above-put j k v nil h a = (h, tt)
Above-put j k v (cons i n c) h a = ground (arith, Above-put j k v c h a.1)

pub put-IsOrdered : (k : Bytes) (v : Node) (c : Children) → IsOrdered c → IsOrdered (put k v c)
unfolding put
put-IsOrdered k v nil o = (tt, tt)
put-IsOrdered k v (cons j n c) o = elim (Bool-cases (eqb j k)) [
  | inl same ↦ rw same (let e : j ≡ k = (eqb_iff j k).0 same in rw (← e) o)
  | inr other ↦ elim (Bool-cases (less k j)) [
    | inl before ↦ rw (other, before) ((before, Above-trans k j c before o.0), o)
    | inr after ↦
        rw (other, after)
          (Above-put j k v c (less_total k j other after) o.0, put-IsOrdered k v c o.1)
  ]
]

Above-erase : (j k : Bytes) (c : Children) → Above j c → Above j (erase k c)
unfolding erase
Above-erase j k nil a = tt
Above-erase j k (cons i n c) a = ground (arith, Above-erase j k c a.1)

pub erase-IsOrdered : (k : Bytes) (c : Children) → IsOrdered c → IsOrdered (erase k c)
unfolding erase
erase-IsOrdered k nil o = tt
erase-IsOrdered k (cons j n c) o = ground (arith, Above-erase j k c o.0, erase-IsOrdered k c o.1)

find-of_Above : (k : Bytes) (c : Children) → Above k c → find k c ≡ none
unfolding find
find-of_Above k nil a = refl
find-of_Above k (cons j n c) a = ground (arith, find-of_Above k c a.1, eqb_iff j k, less_irrefl k)

pub find-erase :
    (j k : Bytes) (c : Children)
    → IsOrdered c
    → find j (erase k c) ≡ (if eqb k j then none else find j c)
unfolding find erase
find-erase j k nil o = ground arith
find-erase j k (cons i n c) o =
    ground (arith, find-erase j k c o.1, find-of_Above j c, eqb_iff i k, eqb_iff i j, eqb_iff k j)

pub find-erase_ne : (j k : Bytes) (c : Children) → eqb k j ≡ false → find j (erase k c) ≡ find j c
unfolding find erase
find-erase_ne j k nil h = refl
find-erase_ne j k (cons i n c) h =
    ground (arith, find-erase_ne j k c h, eqb_iff i k, eqb_iff i j, eqb_iff k j)
