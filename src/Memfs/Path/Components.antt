-- ===== src/Memfs/Path/Components.antt =====
-- `split_path` of waterbox/memfs.cpp: what it makes of a path, and back.
use mathlib.Core.List.{append_assoc, append-nil}
use chimera_core_eka2l.Prelude.{
  ℕ, ◌≡◌, ◌≢◌, refl, ◌∙◌, ap, sym, true, false, List, [], ◌∷◌, ◌++◌, Bytes, drop, if◌then◌else◌,
  arith, All, Bool-cases, inl, inr,
}
use chimera_core_eka2l.Memfs.Path.{tolower, is_separator, flush, components, has_drive, split_path}

-- No byte of the name is a separator.
abbrev pub IsPlain : Bytes → Type 0
IsPlain = All (λ c. is_separator c ≡ false)

-- A component: a name that is not empty and holds no separator.
abbrev pub IsComponent : Bytes → Type 0
IsComponent [] = ⊥
IsComponent (c ∷ name) = IsPlain (c ∷ name)

-- Separators, of either kind.
abbrev pub IsSeparators : Bytes → Type 0
IsSeparators = All (λ c. is_separator c ≡ true)

components-plain :
    (c : ℕ) (path current : Bytes) (parts : List Bytes)
    → is_separator c ≡ false
    → components (c ∷ path) current parts ≡ components path (current ++ c ∷ []) parts
unfolding components
components-plain c path current parts h = ground arith

components-separator :
    (c : ℕ) (path current : Bytes) (parts : List Bytes)
    → is_separator c ≡ true
    → components (c ∷ path) current parts ≡ components path [] (flush current parts)
unfolding components
components-separator c path current parts h = ground arith

components-name :
    (name rest current : Bytes) (parts : List Bytes)
    → IsPlain name
    → components (name ++ rest) current parts ≡ components rest (current ++ name) parts
components-name [] rest current parts h =
    ap (λ t. components rest t parts) (sym (append-nil current))
components-name (c ∷ name) rest current parts h =
    components-plain c (name ++ rest) current parts h.0
    ∙ components-name name rest (current ++ c ∷ []) parts h.1
    ∙ ap (λ t. components rest t parts) (append_assoc current (c ∷ []) name)

components-separators :
    (seps rest : Bytes) (parts : List Bytes)
    → IsSeparators seps
    → components (seps ++ rest) [] parts ≡ components rest [] parts
components-separators [] rest parts h = refl
components-separators (c ∷ seps) rest parts h =
    components-separator c (seps ++ rest) [] parts h.0 ∙ components-separators seps rest parts h.1

-- A name and the separators before it; the tail of the list ends the path.
pub record Piece : Type 0 where
  pub separators : Bytes
  pub name : Bytes

-- The path that spells the pieces, each behind its separators, and ends in `tail`.
abbrev pub spell : List Piece → Bytes → Bytes
spell [] tail = tail
spell (x ∷ pieces) tail = x.separators ++ (x.name ++ spell pieces tail)

abbrev pub names : List Piece → List Bytes
names [] = []
names (x ∷ pieces) = x.name ∷ names pieces

-- At least one separator, all of them separators, and a name.
abbrev pub IsPiece : Piece → Type 0
IsPiece x = (x.separators ≢ []) × IsSeparators x.separators × IsComponent x.name

flush-component :
    (name : Bytes) (parts : List Bytes) → IsComponent name → flush name parts ≡ parts ++ name ∷ []
flush-component [] parts h = absurd h
flush-component (c ∷ name) parts h = refl

component-IsPlain : (name : Bytes) → IsComponent name → IsPlain name
component-IsPlain [] h = tt
component-IsPlain (c ∷ name) h = h

-- A name that is being read, then the rest of the path.
components-spell :
    (pieces : List Piece) (tail current : Bytes) (parts : List Bytes)
    → All IsPiece pieces
    → IsSeparators tail
    → components (spell pieces tail) current parts ≡ flush current parts ++ names pieces
unfolding components
components-spell [] [] current parts h t = sym (append-nil (flush current parts))
components-spell [] (c ∷ tail) current parts h t =
    components-separator c tail current parts t.0
    ∙ ap (λ s. components s [] (flush current parts)) (sym (append-nil tail))
    ∙ components-separators tail [] (flush current parts) t.1
    ∙ sym (append-nil (flush current parts))
components-spell (x ∷ pieces) tail current parts ((some_sep, seps, name), h) t =
    go x.separators some_sep seps
    ∙ components-spell pieces tail x.name (flush current parts) h t
    ∙ ap (λ s. s ++ names pieces) (flush-component x.name (flush current parts) name)
    ∙ append_assoc (flush current parts) (x.name ∷ []) (names pieces)
  where
    go :
        (s : Bytes)
        → s ≢ []
        → IsSeparators s
        → components (s ++ (x.name ++ spell pieces tail)) current parts
          ≡ components (spell pieces tail) x.name (flush current parts)
    go [] ne hs = absurd (ne refl)
    go (c ∷ s) ne hs =
        components-separator c (s ++ (x.name ++ spell pieces tail)) current parts hs.0
        ∙ components-separators s (x.name ++ spell pieces tail) (flush current parts) hs.1
        ∙ components-name x.name (spell pieces tail) [] (flush current parts)
            (component-IsPlain x.name name)

-- Round trip. A path spelled from a drive letter, a colon and components, with any separators of
-- either kind before each component and at the end, splits into that letter in lower case and just
-- those components.
pub split_path-spell :
    (letter : ℕ) (pieces : List Piece) (tail : Bytes)
    → letter ≢ 0
    → All IsPiece pieces
    → IsSeparators tail
    → split_path (letter ∷ b':' ∷ spell pieces tail)
      ≡ record { ok = true; drive_letter = tolower letter; parts = names pieces }
unfolding split_path
split_path-spell letter pieces tail some_letter h t =
    ground (arith, components-spell pieces tail [] [] h t)

All-append {ℓ κ} :
    {A : Type ℓ} (P : A → Type κ) (xs ys : List A) → All P xs → All P ys → All P (xs ++ ys)
All-append P [] ys hx hy = hy
All-append P (x ∷ xs) ys hx hy = (hx.0, All-append P xs ys hx.1 hy)

flush-All :
    (current : Bytes) (parts : List Bytes)
    → IsPlain current
    → All IsComponent parts
    → All IsComponent (flush current parts)
flush-All [] parts hc hp = hp
flush-All (c ∷ current) parts hc hp = All-append IsComponent parts ((c ∷ current) ∷ []) hp (hc, tt)

-- What is read so far: components, and a name with no separator.
components-All :
    (path current : Bytes) (parts : List Bytes)
    → IsPlain current
    → All IsComponent parts
    → All IsComponent (components path current parts)
components-All [] current parts hc hp = unfold components in flush-All current parts hc hp
components-All (c ∷ path) current parts hc hp = elim (Bool-cases (is_separator c)) [
  | inl separator ↦
      rw (components-separator c path current parts separator)
        (components-All path [] (flush current parts) tt (flush-All current parts hc hp))
  | inr plain ↦ rw (components-plain c path current parts plain) (
      components-All path (current ++ c ∷ []) parts
        (All-append (λ b. is_separator b ≡ false) current (c ∷ []) hc (plain, tt)) hp)
]

-- Whatever the path, no component that `split_path` returns is empty or holds a separator.
split_path-IsComponent : (path : Bytes) → All IsComponent (split_path path).parts
unfolding split_path
split_path-IsComponent path =
    components-All (if has_drive path then drop 2 path else path) [] [] tt tt
