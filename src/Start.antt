-- ===== src/Start.antt =====
-- waterbox/wbx-entry.cpp: `parse_clock_start`, the date that the machine's clock starts at. The
-- numbers are what `sscanf` scanned, a parameter of the host's C library: none where the text is in
-- neither of the two forms, a time of zeros where it is a date alone.
pub mod Calendar
use chimera_core_eka2l.Prelude.{
  ℕ, ◌+◌, ◌-◌, ◌*◌, ◌/◌, ◌%◌, Bool, true, false, not, ◌&&◌, ◌||◌, Option, none, some, List, [], ◌∷◌,
  Bytes, ltb, leb, ◌==◌, if◌then◌else◌, get_or,
}

-- What was scanned. A negative number fails the test of the ranges, and so does a text that does
-- not scan: both answer false, and both are none here.
pub record Scanned : Type 0 where
  pub y : ℕ
  pub mo : ℕ
  pub d : ℕ
  pub h : ℕ
  pub mi : ℕ
  pub s : ℕ

abbrev pub days_in : List ℕ
days_in = 31 ∷ 28 ∷ 31 ∷ 30 ∷ 31 ∷ 30 ∷ 31 ∷ 31 ∷ 30 ∷ 31 ∷ 30 ∷ 31 ∷ []

unfoldable pub leap : ℕ → Bool
leap y = (y % 4 == 0 && not (y % 100 == 0)) || y % 400 == 0

unfoldable pub last_day : ℕ → ℕ → ℕ
unfolding leap
last_day y mo = get_or days_in (mo - 1) 0 + (if mo == 2 && leap y then 1 else 0)

unfoldable pub out_of_range : Scanned → Bool
out_of_range t =
    ltb t.y 1980
    || ltb 2099 t.y
    || ltb t.mo 1
    || ltb 12 t.mo
    || ltb t.d 1
    || ltb (last_day t.y t.mo) t.d
    || ltb 23 t.h
    || ltb 59 t.mi
    || ltb 59 t.s

-- Days from 1970-01-01.
unfoldable pub days_from_civil : ℕ → ℕ → ℕ → ℕ
days_from_civil y mo d =
    let yy = y - (if leb mo 2 then 1 else 0) in
    let era = yy / 400 in
    let yoe = yy - era * 400 in
    let doy = (153 * (if ltb 2 mo then mo - 3 else mo + 9) + 2) / 5 + d - 1 in
    let doe = yoe * 365 + yoe / 4 - yoe / 100 + doy in era * 146097 + doe - 719468

unfoldable pub parse_clock_start : (Bytes → Option Scanned) → Bytes → Option ℕ
parse_clock_start scan text = elim (scan text) [
  | none ↦ none
  | some t ↦
      if out_of_range t
      then none
      else some (days_from_civil t.y t.mo t.d * 86400 + t.h * 3600 + t.mi * 60 + t.s)
]
