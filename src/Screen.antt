-- ===== src/Screen.antt =====
-- The picture: `unpack12`, `rgba_bytes_to_argb`, `colour_check_12bpp`, `read_framebuffer` and
-- `read_screen` of waterbox/machine.cpp. The emulator's screen, its memory and its graphics driver
-- are parameters. The channels of a colour do not overlap, so that `|` is a sum.
pub mod Pixels
pub mod Fits
use chimera_core_eka2l.Prelude.{
  ℕ, zero, suc, ◌+◌, ◌-◌, ◌*◌, ◌/◌, ◌%◌, ◌≤◌, Bool, true, false, not, ◌&&◌, ◌||◌, Option, none,
  some, List, [], ◌∷◌, ◌++◌, map, ltb, ◌==◌, if◌then◌else◌, length, take, replicate,
}

abbrev pub opaque : ℕ
opaque = 4278190080

-- `0xFF000000u | (r << 16) | (g << 8) | b`.
abbrev pub argb : ℕ → ℕ → ℕ → ℕ
argb r g b = opaque + r * 65536 + g * 256 + b

unfoldable pub unpack12 : ℕ → ℕ
unpack12 v = argb (v / 256 % 16 * 17) (v / 16 % 16 * 17) (v % 16 * 17)

unfoldable pub rgba_bytes_to_argb : ℕ → ℕ
rgba_bytes_to_argb word = argb (word % 256) (word / 256 % 256) (word / 65536 % 256)

-- The known values, in and out.
abbrev pub cases12 : List (ℕ × ℕ)
cases12 =
    (3840, 4294901760)
    ∷ (240, 4278255360)
    ∷ (15, 4278190335)
    ∷ (4095, 4294967295)
    ∷ (0, 4278190080)
    ∷ []

abbrev pub cases32 : List (ℕ × ℕ)
cases32 =
    (4278190335, 4294901760)
    ∷ (4278255360, 4278255360)
    ∷ (4294901760, 4278190335)
    ∷ (4293805056, 4278207726)
    ∷ []

abbrev pub all_match : (ℕ → ℕ) → List (ℕ × ℕ) → Bool → Bool
all_match f [] ok = ok
all_match f ((given, want) ∷ cases) ok = all_match f cases (if f given == want then ok else false)

unfoldable pub colour_check_12bpp : Bool
unfolding unpack12 rgba_bytes_to_argb
colour_check_12bpp = all_match rgba_bytes_to_argb cases32 (all_match unpack12 cases12 true)

-- The emulator's screen, as `read_framebuffer` asks it. A size that is not positive is 0; a null
-- `screen_buffer_ptr()` is none.
pub record Panel : Type 0 where
  pub screen_buffer_chunk : Bool
  pub rotation : ℕ
  pub size_x : ℕ
  pub size_y : ℕ
  pub bpp : ℕ
  pub pitch : ℕ
  pub base : Option (ℕ → ℕ)

-- What the three references of `read_screen` name.
pub record Picture : Type 0 where
  pub out : List ℕ
  pub width : ℕ
  pub height : ℕ

-- Loads of two and four bytes, the low byte first.
abbrev pub load16 : (ℕ → ℕ) → ℕ → ℕ
load16 memory at = memory at + memory (at + 1) * 256

abbrev pub load32 : (ℕ → ℕ) → ℕ → ℕ
load32 memory at = load16 memory at + load16 memory (at + 2) * 65536

unfoldable pub from_16bpp : ℕ → ℕ
from_16bpp v = argb (v / 2048 % 32 * 255 / 31) (v / 32 % 64 * 255 / 63) (v % 32 * 255 / 31)

-- The switch on the depth: the pixel at column `x` of the row at `row`, none for a depth that the
-- port has not met.
unfoldable pub pixel : (ℕ → ℕ) → ℕ → ℕ → ℕ → Option ℕ
pixel memory bpp row x =
    if bpp == 12
    then some (unpack12 (load16 memory (row + x * 2)))
    else if bpp == 16
    then some (from_16bpp (load16 memory (row + x * 2)))
    else if bpp == 24
    then some (argb (memory (row + x * 3 + 2)) (memory (row + x * 3 + 1)) (memory (row + x * 3)))
    else if bpp == 32
    then (let v = load32 memory (row + x * 4) in
        some (argb (v / 65536 % 256) (v / 256 % 256) (v % 256)))
    else none

-- `n` pixels from column `x` on.
unfoldable pub pixels : (ℕ → ℕ) → ℕ → ℕ → ℕ → ℕ → Option (List ℕ)
pixels memory bpp row x zero = some []
pixels memory bpp row x (suc n) = elim (pixel memory bpp row x) [
  | none ↦ none
  | some p ↦ elim (pixels memory bpp row (suc x) n) [ none ↦ none | some ps ↦ some (p ∷ ps) ]
]

-- `n` rows from row `y` on.
unfoldable pub rows : (ℕ → ℕ) → ℕ → ℕ → ℕ → ℕ → ℕ → Option (List ℕ)
rows memory bpp pitch width y zero = some []
rows memory bpp pitch width y (suc n) = elim (pixels memory bpp (y * pitch) 0 width) [
  | none ↦ none
  | some ps ↦ elim (rows memory bpp pitch width (suc y) n) [
    | none ↦ none
    | some rest ↦ some (ps ++ rest)
  ]
]

-- `out.resize(n)`.
abbrev pub resize : List ℕ → ℕ → List ℕ
resize out n = take n out ++ replicate (n - length out) 0

-- A depth that is not met is found at the first pixel, when the picture has its new size.
unfoldable pub draw : Panel → (ℕ → ℕ) → Picture → Picture × Bool
draw s memory pic =
    let sized : Picture = record {
      out = resize pic.out (s.size_x * s.size_y);
      width = s.size_x;
      height = s.size_y;
    } in
    elim (rows memory s.bpp s.pitch s.size_x 0 s.size_y) [
      | none ↦ (sized, false)
      | some out ↦ (record sized { out = out }, true)
    ]

unfoldable pub read_framebuffer : Panel → Picture → Picture × Bool
read_framebuffer s pic =
    if not s.screen_buffer_chunk
    then (pic, false)
    else if not (s.rotation == 0) || s.size_x == 0 || s.size_y == 0
    then (pic, false)
    else elim s.base [ none ↦ (pic, false) | some memory ↦ draw s memory pic ]

-- The rest of what `read_screen` asks: the screen is none where the kernel, the window server or
-- the screen is not there; `texture` says that the redraw left one; `read_bitmap` has the words that the
-- driver puts into the buffer it is given, by their places there, none where it answers false.
pub record Display : Type 0 where
  pub screen : Option Panel
  pub dsa_active_count : ℕ
  pub gdriver : Bool
  pub texture : Bool
  pub size_x : ℕ
  pub size_y : ℕ
  pub read_bitmap : Option (ℕ → ℕ)

-- A buffer that the driver has filled, from place `i` on.
unfoldable pub filled : (ℕ → ℕ) → ℕ → List ℕ → List ℕ
filled words i [] = []
filled words i (old ∷ out) = words i ∷ filled words (suc i) out

-- The picture that the compositor hands over.
unfoldable pub read_composed : Display → Picture → Picture × Bool
unfolding filled
read_composed d pic =
    if not d.gdriver || not d.texture || d.size_x == 0 || d.size_y == 0
    then (pic, false)
    else let sized : Picture = record {
      out = resize pic.out (d.size_x * d.size_y);
      width = d.size_x;
      height = d.size_y;
    } in
      elim d.read_bitmap [
        | none ↦ (sized, false)
        | some words ↦
            (record sized { out = map rgba_bytes_to_argb (filled words 0 sized.out) }, true)
      ]

unfoldable pub read_screen : Display → Picture → Picture × Bool
read_screen d pic = elim d.screen [
  | none ↦ (pic, false)
  | some s ↦
      if d.dsa_active_count == 0
      then read_composed d pic
      else let r = read_framebuffer s pic in if r.1 then r else read_composed d r.0
]
