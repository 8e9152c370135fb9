-- ===== src/Install/Card/Selected.antt =====
-- Which entries `install_card` (waterbox/machine.cpp) takes for files of the card.
use chimera_core_eka2l.Prelude.{
  ◌≡◌, refl, ap, sym, ◌∙◌, true, false, not, ◌||◌, Option, none, some, [], ◌∷◌, ◌++◌, Bytes,
  is_empty, length, drop, ◌==◌, ==_iff, ==_refl, arith, Bool-cases, inl, inr,
}
use chimera_core_eka2l.Install.Card.{Entry, Archive, begins, readable, selected}

-- A text that begins with a word is the word and what comes behind it.
begins-append :
    (text word : Bytes) → begins text word ≡ true → text ≡ word ++ drop (length word) text
unfolding begins
begins-append text [] h = refl
begins-append [] (w ∷ word) h = ground (arith, h)
begins-append (c ∷ text) (w ∷ word) h = elim (Bool-cases (c == w)) [
  | inl one ↦
      ap (λ d. d ∷ text) ((==_iff c w).0 one)
      ∙ ap (λ t. w ∷ t) (begins-append text word (ground (arith, h, one)))
  | inr other ↦ ground (arith, h, other)
]

append-begins : (word rest : Bytes) → begins (word ++ rest) word ≡ true
unfolding begins
append-begins [] rest = refl
append-begins (w ∷ word) rest = rw (==_refl w) (append-begins word rest)

drop-append : (word rest : Bytes) → drop (length word) (word ++ rest) ≡ rest
drop-append [] rest = refl
drop-append (w ∷ word) rest = drop-append word rest

-- An entry is a file of the card: it is no directory, it stands below the root, and it can be read.
pub record IsFile (a : Archive) (prefix : Bytes) (entry : Entry) (relative content : Bytes)
    : Type 0 where
  pub plain : entry.is_directory ≡ false
  pub below : entry.path ≡ prefix ++ relative
  pub named : is_empty relative ≡ false
  pub read : a.content entry.path ≡ some content

readable-some :
    (rest : Bytes) (o : Option Bytes) (relative content : Bytes)
    → readable rest o ≡ some (relative, content)
    → (rest ≡ relative) × (is_empty relative ≡ false) × (o ≡ some content)
readable-some rest none relative content h = cc
readable-some rest (some c) relative content h = elim (Bool-cases (is_empty rest)) [
  | inl empty ↦ ground (arith, h, empty)
  | inr named ↦
      let same : ◌≡◌ {A = Option (Bytes × Bytes)} (some (rest, c)) (some (relative, content)) =
        ground (arith, h, named) in
      let one : rest ≡ relative = cc in (one, ap is_empty (sym one) ∙ named, cc)
]

pub selected-some :
    (a : Archive) (prefix : Bytes) (entry : Entry) (relative content : Bytes)
    → selected a prefix entry ≡ some (relative, content)
    → IsFile a prefix entry relative content
unfolding selected
selected-some a prefix entry relative content h =
    elim (Bool-cases (entry.is_directory || not (begins entry.path prefix))) [
      | inl skipped ↦ ground (arith, h, skipped)
      | inr taken ↦
          let r =
            readable-some (drop (length prefix) entry.path) (a.content entry.path) relative content
              (ground (arith, h, taken)) in
          record {
            plain = ground (arith, taken);
            below =
                begins-append entry.path prefix (ground (arith, taken)) ∙ ap (λ t. prefix ++ t) r.0;
            named = r.1;
            read = r.2;
          }
    ]

pub selected_file :
    (a : Archive) (prefix : Bytes) (entry : Entry) (relative content : Bytes)
    → IsFile a prefix entry relative content
    → selected a prefix entry ≡ some (relative, content)
unfolding selected
selected_file a prefix entry relative content f =
    let starts = ap (λ t. begins t prefix) f.below ∙ append-begins prefix relative in
    let rest = ap (drop (length prefix)) f.below ∙ drop-append prefix relative in
    rw (f.plain, starts, rest, f.read, f.named) refl
