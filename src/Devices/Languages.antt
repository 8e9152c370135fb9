-- ===== src/Devices/Languages.antt =====
-- The phone's languages, as `add_device_from_rom` of waterbox/machine.cpp reads them from the text of
-- drive Z. EKA2L1's line reader and the C library's `atoi` are parameters.
use chimera_core_eka2l.Prelude.{
  Bool, true, false, ◌||◌, Option, none, some, List, [], ◌∷◌, ◌++◌, Bytes, eqb, ◌==◌, if◌then◌else◌,
  is_empty, get_or, map, ◌≡◌, refl, ap, ◌∙◌, sym, subst, arith, ◌⊎◌, inl, inr, Bool-cases,
}
use mathlib.Core.Option.{some-injective}
use chimera_core_eka2l.Audio.{ℤ, pos, negsuc}

pub record Text : Type 0 where
  pub lines : Bytes → List Bytes
  pub atoi : Bytes → ℤ

-- The loop ends at an empty line, and goes past one that is an end of line alone.
unfoldable pub is_last : Bytes → Bool
is_last line = is_empty line || get_or line 0 0 == 0

unfoldable pub is_blank : Bytes → Bool
unfolding eqb
is_blank line = eqb line (13 ∷ []) || eqb line (10 ∷ []) || eqb line (13 ∷ 10 ∷ [])

-- `find_first_of(",d")`: any of the two characters.
unfoldable pub is_marked : Bytes → Bool
is_marked [] = false
is_marked (c ∷ line) = c == b',' || c == b'd' || is_marked line

-- The loop over the lines, with the languages and the default so far.
unfoldable pub read_lines : Text → List Bytes → List ℤ × ℤ → List ℤ × ℤ
unfolding is_last is_blank is_marked
read_lines t [] acc = acc
read_lines t (line ∷ rest) acc =
    let code = t.atoi line in
    let skipped = read_lines t rest acc in
    let taken = read_lines t rest (acc.0 ++ code ∷ [], if is_marked line then code else acc.1) in
    if is_last line then acc else if is_blank line then skipped else taken

abbrev pub is_minus_one : ℤ → Bool
is_minus_one (pos n) = false
is_minus_one (negsuc n) = n == 0

-- What the device gets: nothing where no language is listed, the first as the default where none is
-- marked.
abbrev pub defaulted : List ℤ × ℤ → Option (List ℤ × ℤ)
defaulted ([], marked) = none
defaulted (first ∷ rest, marked) =
    some (first ∷ rest, if is_minus_one marked then first else marked)

unfoldable pub listed_languages : Text → Option Bytes → Option (List ℤ × ℤ)
unfolding read_lines
listed_languages t none = none
listed_languages t (some text) = defaulted (read_lines t (t.lines text) ([], negsuc 0))

-- The lines that name a language: those before the loop's end that are no end of line alone.
unfoldable pub naming : List Bytes → List Bytes
unfolding is_last is_blank
naming [] = []
naming (line ∷ rest) =
    let more = naming rest in
    if is_last line then [] else if is_blank line then more else line ∷ more

abbrev pub Has : ℤ → List ℤ → Type 0
Has code [] = ⊥
Has code (x ∷ xs) = (x ≡ code) ⊎ Has code xs

Has-last : (code : ℤ) (xs : List ℤ) → Has code (xs ++ code ∷ [])
Has-last code [] = inl refl
Has-last code (x ∷ xs) = inr (Has-last code xs)

Has-more : (code c : ℤ) (xs : List ℤ) → Has code xs → Has code (xs ++ c ∷ [])
Has-more code c [] h = elim h [ ]
Has-more code c (x ∷ xs) (inl e) = inl e
Has-more code c (x ∷ xs) (inr h) = inr (Has-more code c xs h)

append_assoc : (xs ys zs : List ℤ) → (xs ++ ys) ++ zs ≡ xs ++ (ys ++ zs)
append_assoc [] ys zs = refl
append_assoc (x ∷ xs) ys zs = ap (λ t. x ∷ t) (append_assoc xs ys zs)

append_nil : (xs : List ℤ) → xs ++ [] ≡ xs
append_nil [] = refl
append_nil (x ∷ xs) = ap (λ t. x ∷ t) (append_nil xs)

-- What the loop has found: the languages of the lines, and a default among them or none.
record Read (t : Text) (lines : List Bytes) (langs : List ℤ) (r : List ℤ × ℤ) : Type 0 where
  listed : r.0 ≡ langs ++ map t.atoi (naming lines)
  chosen : (r.1 ≡ negsuc 0) ⊎ Has r.1 r.0

naming_last : (line : Bytes) (rest : List Bytes) → is_last line ≡ true → naming (line ∷ rest) ≡ []
unfolding naming
naming_last line rest ends = rw ends refl

naming_blank :
    (line : Bytes) (rest : List Bytes)
    → is_last line ≡ false
    → is_blank line ≡ true
    → naming (line ∷ rest) ≡ naming rest
unfolding naming
naming_blank line rest goes blank = rw (goes, blank) refl

naming_named :
    (line : Bytes) (rest : List Bytes)
    → is_last line ≡ false
    → is_blank line ≡ false
    → naming (line ∷ rest) ≡ line ∷ naming rest
unfolding naming
naming_named line rest goes names = rw (goes, names) refl

-- The default after a line.
chosen_next :
    (code marked : ℤ) (b : Bool) (langs : List ℤ)
    → (marked ≡ negsuc 0) ⊎ Has marked langs
    → ((if b then code else marked) ≡ negsuc 0)
      ⊎ Has (if b then code else marked) (langs ++ code ∷ [])
chosen_next code marked true langs h = inr (Has-last code langs)
chosen_next code marked false langs (inl none') = inl none'
chosen_next code marked false langs (inr h) = inr (Has-more marked code langs h)

read_lines-Read :
    (t : Text) (lines : List Bytes) (langs : List ℤ) (marked : ℤ)
    → (marked ≡ negsuc 0) ⊎ Has marked langs
    → Read t lines langs (read_lines t lines (langs, marked))
unfolding read_lines naming
read_lines-Read t [] langs marked h = record { listed = sym (append_nil langs); chosen = h }
read_lines-Read t (line ∷ rest) langs marked h =
    let given : List Bytes → List ℤ = λ ns. langs ++ map t.atoi ns in
    elim (Bool-cases (is_last line)) [
      | inl ends ↦ rw ends (record {
        listed = sym (append_nil langs) ∙ ap given (sym (naming_last line rest ends));
        chosen = h;
      })
      | inr goes ↦ elim (Bool-cases (is_blank line)) [
        | inl blank ↦
            let r = read_lines-Read t rest langs marked h in
            rw (goes, blank)
              (record {
                listed = r.listed ∙ ap given (sym (naming_blank line rest goes blank));
                chosen = r.chosen;
              })
        | inr names ↦
            let code = t.atoi line in
            let r =
              read_lines-Read t rest (langs ++ code ∷ []) (if is_marked line then code else marked)
                (chosen_next code marked (is_marked line) langs h) in
            rw (goes, names)
              (record {
                listed =
                    r.listed
                    ∙ append_assoc langs (code ∷ []) (map t.atoi (naming rest))
                    ∙ ap given (sym (naming_named line rest goes names));
                chosen = r.chosen;
              })
      ]
    ]

-- What a device is given.
pub record Given (t : Text) (lines : List Bytes) (languages : List ℤ) (default' : ℤ) : Type 0 where
  pub listed : languages ≡ map t.atoi (naming lines)
  pub among : Has default' languages

chosen_among :
    (first marked : ℤ) (rest : List ℤ)
    → (marked ≡ negsuc 0) ⊎ Has marked (first ∷ rest)
    → Has (if is_minus_one marked then first else marked) (first ∷ rest)
chosen_among first marked rest h = elim (Bool-cases (is_minus_one marked)) [
  | inl none' ↦ subst (λ b. Has (if b then first else marked) (first ∷ rest)) (sym none') (inl refl)
  | inr some' ↦
      subst (λ b. Has (if b then first else marked) (first ∷ rest)) (sym some')
        (elim h [ inl e ↦ ground (arith, ap is_minus_one e, some') | inr among ↦ among ])
]

defaulted-Given :
    (t : Text) (lines : List Bytes) (r : List ℤ × ℤ) (languages : List ℤ) (default' : ℤ)
    → Read t lines [] r
    → defaulted r ≡ some (languages, default')
    → Given t lines languages default'
defaulted-Given t lines ([], marked) languages default' read h = cc
defaulted-Given t lines (first ∷ rest, marked) languages default' read h =
    let both =
      some-injective (first ∷ rest, if is_minus_one marked then first else marked)
        (languages, default') h in
    record {
      listed = sym (ap (λ r. r.0) both) ∙ read.listed;
      among = subst (λ r. Has r.1 r.0) both (chosen_among first marked rest read.chosen);
    }

-- The languages that a device is given are those of the lines before the first empty one that are no
-- end of line alone, in order, and its default language is one of them.
pub listed_languages-Given :
    (t : Text) (text : Bytes) (languages : List ℤ) (default' : ℤ)
    → listed_languages t (some text) ≡ some (languages, default')
    → Given t (t.lines text) languages default'
unfolding listed_languages
listed_languages-Given t text languages default' h =
    defaulted-Given t (t.lines text) (read_lines t (t.lines text) ([], negsuc 0)) languages default'
      (read_lines-Read t (t.lines text) [] (negsuc 0) (inl refl)) h
