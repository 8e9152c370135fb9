-- ===== src/Screen/Fits.antt =====
-- The size of the picture that `read_screen` (waterbox/machine.cpp) hands over.
use native.Mathlib.Nat.{mul_comm}
use chimera_core_eka2l.Prelude.{
  ℕ, zero, suc, ◌+◌, ◌-◌, ◌*◌, ◌<◌, ◌≡◌, take, replicate, get_or, length-append, length-take,
  length-replicate, refl, ap, sym, ◌∙◌, subst, Bool, true, false, none, some, List, [], ◌∷◌, map,
  ◌==◌, length, arith, Bool-cases, Option-cases, inl, inr,
}
use chimera_core_eka2l.Screen.{
  Panel, Picture, Display, resize, filled, rgba_bytes_to_argb, read_framebuffer, read_composed,
  read_screen,
}
use chimera_core_eka2l.Screen.Pixels.{Drawn, read_framebuffer-Drawn}

length-map : (f : ℕ → ℕ) (xs : List ℕ) → length (map f xs) ≡ length xs
length-map f [] = refl
length-map f (x ∷ xs) = ap suc (length-map f xs)

length-filled : (words : ℕ → ℕ) (i : ℕ) (out : List ℕ) → length (filled words i out) ≡ length out
unfolding filled
length-filled words i [] = refl
length-filled words i (old ∷ out) = ap suc (length-filled words (suc i) out)

length-resize : (out : List ℕ) (n : ℕ) → length (resize out n) ≡ n
length-resize out n =
    length-append (take n out) (replicate (n - length out) 0)
    ∙ omega (arith, length-take n out, length-replicate {A = ℕ} (n - length out) 0)

map-filled :
    (f words : ℕ → ℕ) (i : ℕ) (out : List ℕ) (j : ℕ)
    → j < length out
    → get_or (map f (filled words i out)) j 0 ≡ f (words (i + j))
unfolding filled
map-filled f words i [] j h = absurd (omega arith)
map-filled f words i (old ∷ out) zero h = ap (λ k. f (words k)) (omega arith)
map-filled f words i (old ∷ out) (suc j) h =
    map-filled f words (suc i) out j (omega arith) ∙ ap (λ k. f (words k)) (omega arith)

-- Where a picture comes from: the panel's memory, which a direct client has drawn into, or the
-- graphics driver, whose words are the pixels in order, their bytes turned round.
pub data Source (d : Display) (pic : Picture) : Type 0 where
  from_panel :
      (s : Panel) (memory : ℕ → ℕ)
      → d.screen ≡ some s
      → (d.dsa_active_count == 0) ≡ false
      → s.base ≡ some memory
      → Drawn s memory pic
      → Source d pic
  from_driver :
      (words : ℕ → ℕ)
      → d.read_bitmap ≡ some words
      → pic.width ≡ d.size_x
      → pic.height ≡ d.size_y
      → ((j : ℕ) → j < d.size_x * d.size_y → get_or pic.out j 0 ≡ rgba_bytes_to_argb (words j))
      → Source d pic

-- A picture that is there has all its pixels, and one of these sources.
pub record Fits (d : Display) (r : Picture × Bool) : Type 0 where
  pub size : r.1 ≡ true → length r.0.out ≡ r.0.width * r.0.height
  pub source : r.1 ≡ true → Source d r.0

no_base : (s : Panel) (pic : Picture) → s.base ≡ none → (read_framebuffer s pic).1 ≡ false
unfolding read_framebuffer
no_base s pic h = ground (arith, h)

read_framebuffer-Fits :
    (d : Display) (s : Panel) (pic : Picture)
    → d.screen ≡ some s
    → (d.dsa_active_count == 0) ≡ false
    → Fits d (read_framebuffer s pic)
read_framebuffer-Fits d s pic on busy = elim (Option-cases s.base) [
  | inl none' ↦ record {
    size = λ e. ground (arith, no_base s pic none', e);
    source = λ e. ground (arith, no_base s pic none', e);
  }
  | inr (memory, there) ↦ record {
    size = λ e.
        let d = read_framebuffer-Drawn s memory pic there e in
        d.block.size
        ∙ mul_comm s.size_y s.size_x
        ∙ sym (ap (λ w. w * s.size_y) d.wide)
        ∙ sym (ap (λ h. (read_framebuffer s pic).0.width * h) d.high);
    source = λ e. from_panel s memory on busy there (read_framebuffer-Drawn s memory pic there e);
  }
]

-- The picture of the composed path.
abbrev composed_picture : Display → Picture → (ℕ → ℕ) → Picture
composed_picture d pic words = record {
  out = map rgba_bytes_to_argb (filled words 0 (resize pic.out (d.size_x * d.size_y)));
  width = d.size_x;
  height = d.size_y;
}

composed_some :
    (d : Display) (pic : Picture) (words : ℕ → ℕ)
    → d.read_bitmap ≡ some words
    → (read_composed d pic).1 ≡ true
    → (read_composed d pic).0 ≡ composed_picture d pic words
unfolding read_composed
composed_some d pic words h there = ground (arith, h, there)

composed_none :
    (d : Display) (pic : Picture) → d.read_bitmap ≡ none → (read_composed d pic).1 ≡ false
unfolding read_composed
composed_none d pic h = ground (arith, h)

composed_picture-Fits :
    (d : Display) (pic : Picture) (words : ℕ → ℕ)
    → d.read_bitmap ≡ some words
    → Fits d (composed_picture d pic words, true)
composed_picture-Fits d pic words there =
    let n = d.size_x * d.size_y in
    record {
      size = λ e.
          length-map rgba_bytes_to_argb (filled words 0 (resize pic.out n))
          ∙ length-filled words 0 (resize pic.out n)
          ∙ length-resize pic.out n;
      source = λ e. from_driver words there refl refl (λ j h.
          map-filled rgba_bytes_to_argb words 0 (resize pic.out n) j
            (omega (arith, length-resize pic.out n))
          ∙ ap (λ k. rgba_bytes_to_argb (words k)) (omega arith));
    }

read_composed-Fits : (d : Display) (pic : Picture) → Fits d (read_composed d pic)
read_composed-Fits d pic = elim (Option-cases d.read_bitmap) [
  | inl none' ↦ record {
    size = λ e. ground (arith, composed_none d pic none', e);
    source = λ e. ground (arith, composed_none d pic none', e);
  }
  | inr (words, there) ↦
      let f = composed_picture-Fits d pic words there in
      record {
        size = λ e.
            subst (λ r. length r.out ≡ r.width * r.height) (sym (composed_some d pic words there e))
              (f.size refl);
        source = λ e. subst (Source d) (sym (composed_some d pic words there e)) (f.source refl);
      }
]

screen_none : (d : Display) (pic : Picture) → d.screen ≡ none → read_screen d pic ≡ (pic, false)
unfolding read_screen
screen_none d pic h = ground (arith, h)

screen_composed :
    (d : Display) (pic : Picture) (s : Panel)
    → d.screen ≡ some s
    → (d.dsa_active_count == 0) ≡ true
    → read_screen d pic ≡ read_composed d pic
unfolding read_screen
screen_composed d pic s h idle = ground (arith, h, idle)

screen_direct :
    (d : Display) (pic : Picture) (s : Panel)
    → d.screen ≡ some s
    → (d.dsa_active_count == 0) ≡ false
    → (read_framebuffer s pic).1 ≡ true
    → read_screen d pic ≡ read_framebuffer s pic
unfolding read_screen
screen_direct d pic s h busy there = ground (arith, h, busy, there)

screen_behind :
    (d : Display) (pic : Picture) (s : Panel)
    → d.screen ≡ some s
    → (d.dsa_active_count == 0) ≡ false
    → (read_framebuffer s pic).1 ≡ false
    → read_screen d pic ≡ read_composed d (read_framebuffer s pic).0
unfolding read_screen
screen_behind d pic s h busy missing = ground (arith, h, busy, missing)

-- A picture that `read_screen` answers true for has its width times its height of pixels, on every way
-- to it; and it is the panel's, drawn as the panel's memory has it, where a direct client is active, or
-- has the driver's size and at each place the driver's word there with its bytes turned round.
pub read_screen-Fits : (d : Display) (pic : Picture) → Fits d (read_screen d pic)
read_screen-Fits d pic = elim (Option-cases d.screen) [
  | inl none' ↦
      subst (Fits d) (sym (screen_none d pic none'))
        (record { size = λ e. ground (arith, e); source = λ e. ground (arith, e) })
  | inr (s, there) ↦ elim (Bool-cases (d.dsa_active_count == 0)) [
    | inl idle ↦
        subst (Fits d) (sym (screen_composed d pic s there idle)) (read_composed-Fits d pic)
    | inr busy ↦ elim (Bool-cases (read_framebuffer s pic).1) [
      | inl drawn ↦
          subst (Fits d) (sym (screen_direct d pic s there busy drawn))
            (read_framebuffer-Fits d s pic there busy)
      | inr missing ↦
          subst (Fits d) (sym (screen_behind d pic s there busy missing))
            (read_composed-Fits d (read_framebuffer s pic).0)
    ]
  ]
]
