-- ===== src/Install/Card/Root.antt =====
-- Where `install_card` (waterbox/machine.cpp) finds the card's root.
use native.Mathlib.Nat.{sub_self}
use chimera_core_eka2l.Prelude.{
  ℕ, suc, ◌-◌, ◌≤◌, ◌≡◌, ◌⊎◌, refl, ap, ◌∙◌, subst, true, Option, none, some, List, [], ◌∷◌, Bytes,
  ◌==◌, take, drop, get_or, arith, Option-cases, Bool-cases, ==_iff, inl, inr,
}
use chimera_core_eka2l.Install.Card.{Entry, begins, system_slash, find_from, root_at, find_prefix}

-- The word stands at the place that `find` answers.
record Found (word text : Bytes) (from at : ℕ) : Type 0 where
  after : from ≤ at
  here : begins (drop (at - from) text) word ≡ true

drop_step :
    (c : ℕ) (text : Bytes) (from at : ℕ)
    → suc from ≤ at
    → drop (at - from) (c ∷ text) ≡ drop (at - suc from) text
drop_step c text from at h =
    ap (λ n. drop n (c ∷ text)) {x = at - from} {y = suc (at - suc from)} (omega arith)

find_from-Found :
    (word text : Bytes) (from at : ℕ) → find_from word text from ≡ some at → Found word text from at
unfolding find_from
find_from-Found word [] from at h = elim (Bool-cases (begins [] word)) [
  | inl there ↦
      let same : from ≡ at = ground (arith, h, there) in
      subst (Found word [] from) same
        record { after = omega arith; here = rw (sub_self from) there }
  | inr missing ↦ ground (arith, h, missing)
]
find_from-Found word (c ∷ text) from at h = elim (Bool-cases (begins (c ∷ text) word)) [
  | inl there ↦
      let same : from ≡ at = ground (arith, h, there) in
      subst (Found word (c ∷ text) from) same
        record { after = omega arith; here = rw (sub_self from) there }
  | inr missing ↦
      let rest : find_from word text (suc from) ≡ some at = ground (arith, h, missing) in
      let f = find_from-Found word text (suc from) at rest in
      record {
        after = omega (arith, f.after);
        here = ap (λ t. begins t word) (drop_step c text from at f.after) ∙ f.here;
      }
]

-- An entry of the list.
abbrev pub Among : Entry → List Entry → Type 0
Among x [] = ⊥
Among x (entry ∷ entries) = (entry ≡ x) ⊎ Among x entries

-- What the root's prefix is.
pub record Root (lower : Bytes → Bytes) (entries : List Entry) (prefix : Bytes) : Type 0 where
  pub entry : Entry
  pub at : ℕ
  pub listed : Among entry entries
  pub before : prefix ≡ take at entry.path
  pub system : begins (drop at (lower entry.path)) system_slash ≡ true
  pub edge : (at ≡ 0) ⊎ (get_or (lower entry.path) (at - 1) 0 ≡ b'/')

root_at-edge :
    (text : Bytes) (o : Option ℕ) (at : ℕ)
    → root_at text o ≡ some at
    → (o ≡ some at) × ((at ≡ 0) ⊎ (get_or text (at - 1) 0 ≡ b'/'))
root_at-edge text none at h = cc
root_at-edge text (some k) at h = elim (Bool-cases (k == 0)) [
  | inl first ↦
      let same : k ≡ at = ground (arith, h, first) in
      (ap some same, inl (omega (arith, same, (==_iff k 0).0 first)))
  | inr later ↦ elim (Bool-cases (get_or text (k - 1) 0 == b'/')) [
    | inl slash ↦
        let same : k ≡ at = ground (arith, h, later, slash) in
        (
          ap some same,
          inr (
              subst (λ n. get_or text (n - 1) 0 ≡ b'/') same
                ((==_iff (get_or text (k - 1) 0) b'/').0 slash)),
        )
    | inr other ↦ ground (arith, h, later, other)
  ]
]

-- Where `install_card` finds a root, an entry of the archive has the prefix before a "system/", in
-- whatever case, that opens its path or follows a '/'.
pub find_prefix-Root :
    (lower : Bytes → Bytes) (entries : List Entry) (prefix : Bytes)
    → find_prefix lower entries ≡ some prefix
    → Root lower entries prefix
unfolding find_prefix
find_prefix-Root lower [] prefix h = cc
find_prefix-Root lower (x ∷ entries) prefix h =
    elim (Option-cases (root_at (lower x.path) (find_from system_slash (lower x.path) 0))) [
      | inl missing ↦
          let r = find_prefix-Root lower entries prefix (ground (arith, h, missing)) in
          record {
            entry = r.entry;
            at = r.at;
            listed = inr r.listed;
            before = r.before;
            system = r.system;
            edge = r.edge;
          }
      | inr (at, found) ↦
          let e = root_at-edge (lower x.path) (find_from system_slash (lower x.path) 0) at found in
          let f = find_from-Found system_slash (lower x.path) 0 at e.0 in
          record {
            entry = x;
            at = at;
            listed = inl refl;
            before = ground (arith, h, found);
            system =
                ap (λ n. begins (drop n (lower x.path)) system_slash) {y = at - 0} (omega arith)
                ∙ f.here;
            edge = e.1;
          }
    ]
