-- ===== src/Screen/Pixels.antt =====
-- What `read_framebuffer` (waterbox/machine.cpp) puts where.
use chimera_core_eka2l.Prelude.{
  ℕ, zero, suc, ◌+◌, ◌*◌, ◌≤◌, ◌<◌, ◌≡◌, refl, ap, sym, ◌∙◌, subst, true, false, Option, none, some,
  List, [], ◌∷◌, ◌++◌, length, get_elem?, arith, Option-cases, inl, inr, length-append,
}
use chimera_core_eka2l.Screen.{
  opaque, rgba_bytes_to_argb, Panel, Picture, pixel, pixels, rows, draw, read_framebuffer,
}

-- A word whose top byte is full is itself again after both exchanges of red and blue.
pub rgba_bytes_to_argb-rgba_bytes_to_argb :
    (word : ℕ)
    → opaque ≤ word
    → word < opaque + 16777216
    → rgba_bytes_to_argb (rgba_bytes_to_argb word) ≡ word
unfolding rgba_bytes_to_argb
rgba_bytes_to_argb-rgba_bytes_to_argb word h k = omega arith

empty_eq : (ps : List ℕ) → ◌≡◌ {A = Option (List ℕ)} (some []) (some ps) → [] ≡ ps
empty_eq ps h = cc

get_elem?-append_left :
    (xs ys : List ℕ) (i : ℕ) → i < length xs → get_elem? (xs ++ ys) i ≡ get_elem? xs i
get_elem?-append_left [] ys i h = elim h [ ]
get_elem?-append_left (x ∷ xs) ys zero h = refl
get_elem?-append_left (x ∷ xs) ys (suc i) h = get_elem?-append_left xs ys i (omega arith)

get_elem?-append_right :
    (xs ys : List ℕ) (i : ℕ) → get_elem? (xs ++ ys) (length xs + i) ≡ get_elem? ys i
get_elem?-append_right [] ys i = ap (get_elem? ys) {x = 0 + i} (omega arith)
get_elem?-append_right (x ∷ xs) ys i =
    ap (get_elem? (x ∷ xs ++ ys)) {x = suc (length xs) + i} {y = suc (length xs + i)} (omega arith)
    ∙ get_elem?-append_right xs ys i

-- A row: as long as it is wide, with the pixel of each column.
record Row (memory : ℕ → ℕ) (bpp row x n : ℕ) (ps : List ℕ) : Type 0 where
  size : length ps ≡ n
  at : (i : ℕ) → i < n → get_elem? ps i ≡ pixel memory bpp row (x + i)

Row-next :
    (memory : ℕ → ℕ) (bpp row x n p : ℕ) (rest : List ℕ)
    → pixel memory bpp row x ≡ some p
    → Row memory bpp row (suc x) n rest
    → Row memory bpp row x (suc n) (p ∷ rest)
Row-next memory bpp row x n p rest found r = record { size = ap suc r.size; at = nth }
  where
    nth : (i : ℕ) → i < suc n → get_elem? (p ∷ rest) i ≡ pixel memory bpp row (x + i)
    nth zero h = sym found ∙ ap (pixel memory bpp row) {y = x + 0} (omega arith)
    nth (suc i) h =
        r.at i (omega arith)
        ∙ ap (pixel memory bpp row) {x = suc x + i} {y = x + suc i} (omega arith)

pixels-Row :
    (memory : ℕ → ℕ) (bpp row x n : ℕ) (ps : List ℕ)
    → pixels memory bpp row x n ≡ some ps
    → Row memory bpp row x n ps
unfolding pixels
pixels-Row memory bpp row x zero ps h =
    subst (Row memory bpp row x 0) (empty_eq ps h) record { size = refl; at = λ i k. elim k [ ] }
pixels-Row memory bpp row x (suc n) ps h = elim (Option-cases (pixel memory bpp row x)) [
  | inl missing ↦ ground (arith, h, missing)
  | inr (p, found) ↦ elim (Option-cases (pixels memory bpp row (suc x) n)) [
    | inl none_left ↦ ground (arith, h, found, none_left)
    | inr (rest, left) ↦
        let same : p ∷ rest ≡ ps = ground (arith, h, found, left) in
        subst (Row memory bpp row x (suc n)) same
          (Row-next memory bpp row x n p rest found (pixels-Row memory bpp row (suc x) n rest left))
  ]
]

-- A block of rows, from row `y` on.
pub record Block (memory : ℕ → ℕ) (bpp pitch width y n : ℕ) (out : List ℕ) : Type 0 where
  pub size : length out ≡ n * width
  pub at :
      (i j : ℕ)
      → i < n
      → j < width
      → get_elem? out (i * width + j) ≡ pixel memory bpp ((y + i) * pitch) j

Block-next :
    (memory : ℕ → ℕ) (bpp pitch width y n : ℕ) (ps rest : List ℕ)
    → Row memory bpp (y * pitch) 0 width ps
    → Block memory bpp pitch width (suc y) n rest
    → Block memory bpp pitch width y (suc n) (ps ++ rest)
Block-next memory bpp pitch width y n ps rest r b = record {
  size = length-append ps rest ∙ (grind (arith, r.size, b.size));
  at = nth;
}
  where
    nth :
        (i j : ℕ)
        → i < suc n
        → j < width
        → get_elem? (ps ++ rest) (i * width + j) ≡ pixel memory bpp ((y + i) * pitch) j
    nth zero j h k =
        ap (get_elem? (ps ++ rest)) {x = 0 * width + j} {y = j} (omega arith)
        ∙ get_elem?-append_left ps rest j (omega (arith, r.size))
        ∙ r.at j k
        ∙ ap (pixel memory bpp (y * pitch)) {x = 0 + j} {y = j} (omega arith)
        ∙ ap (λ t. pixel memory bpp (t * pitch) j) {x = y} {y = y + 0} (omega arith)
    nth (suc i) j h k =
        ap (get_elem? (ps ++ rest)) {x = suc i * width + j} {y = length ps + (i * width + j)}
          (grind (arith, r.size))
        ∙ get_elem?-append_right ps rest (i * width + j)
        ∙ b.at i j (omega arith) k
        ∙ ap (λ t. pixel memory bpp (t * pitch) j) {x = suc y + i} {y = y + suc i} (omega arith)

rows-Block :
    (memory : ℕ → ℕ) (bpp pitch width y n : ℕ) (out : List ℕ)
    → rows memory bpp pitch width y n ≡ some out
    → Block memory bpp pitch width y n out
unfolding rows
rows-Block memory bpp pitch width y zero out h =
    subst (Block memory bpp pitch width y 0) (empty_eq out h)
      record { size = omega arith; at = λ i j k. elim k [ ] }
rows-Block memory bpp pitch width y (suc n) out h =
    elim (Option-cases (pixels memory bpp (y * pitch) 0 width)) [
      | inl missing ↦ ground (arith, h, missing)
      | inr (ps, found) ↦ elim (Option-cases (rows memory bpp pitch width (suc y) n)) [
        | inl none_left ↦ ground (arith, h, found, none_left)
        | inr (rest, left) ↦
            let same : ps ++ rest ≡ out = ground (arith, h, found, left) in
            subst (Block memory bpp pitch width y (suc n)) same (
              Block-next memory bpp pitch width y n ps rest
                (pixels-Row memory bpp (y * pitch) 0 width ps found)
                (rows-Block memory bpp pitch width (suc y) n rest left))
      ]
    ]

-- What `read_framebuffer` answers with true.
pub record Drawn (s : Panel) (memory : ℕ → ℕ) (pic : Picture) : Type 0 where
  pub wide : pic.width ≡ s.size_x
  pub high : pic.height ≡ s.size_y
  pub block : Block memory s.bpp s.pitch s.size_x 0 s.size_y pic.out

read_framebuffer-true :
    (s : Panel) (memory : ℕ → ℕ) (pic : Picture) (out : List ℕ)
    → s.base ≡ some memory
    → rows memory s.bpp s.pitch s.size_x 0 s.size_y ≡ some out
    → (read_framebuffer s pic).1 ≡ true
    → (read_framebuffer s pic).0 ≡ record { out = out; width = s.size_x; height = s.size_y }
unfolding read_framebuffer draw
read_framebuffer-true s memory pic out there found ok = ground (arith, there, found, ok)

read_framebuffer-rows :
    (s : Panel) (memory : ℕ → ℕ) (pic : Picture)
    → s.base ≡ some memory
    → rows memory s.bpp s.pitch s.size_x 0 s.size_y ≡ none
    → (read_framebuffer s pic).1 ≡ false
unfolding read_framebuffer draw
read_framebuffer-rows s memory pic there missing = ground (arith, there, missing)

pub read_framebuffer-Drawn :
    (s : Panel) (memory : ℕ → ℕ) (pic : Picture)
    → s.base ≡ some memory
    → (read_framebuffer s pic).1 ≡ true
    → Drawn s memory (read_framebuffer s pic).0
read_framebuffer-Drawn s memory pic there ok =
    elim (Option-cases (rows memory s.bpp s.pitch s.size_x 0 s.size_y)) [
      | inl missing ↦ ground (arith, ok, read_framebuffer-rows s memory pic there missing)
      | inr (out, found) ↦
          subst (Drawn s memory) (sym (read_framebuffer-true s memory pic out there found ok))
            record {
              wide = refl;
              high = refl;
              block = rows-Block memory s.bpp s.pitch s.size_x 0 s.size_y out found;
            }
    ]
