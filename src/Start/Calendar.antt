-- ===== src/Start/Calendar.antt =====
-- The day count of `parse_clock_start` (waterbox/wbx-entry.cpp) follows the calendar.
use chimera_core_eka2l.Prelude.{
  ℕ, zero, suc, ◌+◌, ◌≤◌, ◌≡◌, refl, ap, sym, ◌∙◌, Bool-cases, inl, inr, ltb, if◌then◌else◌, arith,
}
use chimera_core_eka2l.Start.{leap, last_day, days_from_civil}

-- The day after a date of the calendar.
unfoldable pub next_day : ℕ → ℕ → ℕ → ℕ × ℕ × ℕ
unfolding last_day
next_day y mo d =
    if ltb d (last_day y mo)
    then (y, mo, d + 1)
    else if ltb mo 12
    then (y, mo + 1, 1)
    else (y + 1, 1, 1)

abbrev pub number : ℕ × ℕ × ℕ → ℕ
number (y, mo, d) = days_from_civil y mo d

within :
    (y mo d : ℕ) → 1980 ≤ y → 1 ≤ d → days_from_civil y mo (d + 1) ≡ suc (days_from_civil y mo d)
unfolding days_from_civil
within y mo d h k = ground arith

new_year : (y : ℕ) → 1980 ≤ y → days_from_civil (y + 1) 1 1 ≡ suc (days_from_civil y 12 31)
unfolding days_from_civil
new_year y h = ground arith

march : (y : ℕ) → 1980 ≤ y → days_from_civil y 3 1 ≡ suc (days_from_civil y 2 (last_day y 2))
unfolding days_from_civil last_day leap
march y h = ground arith

february : (y : ℕ) → 1980 ≤ y → days_from_civil y 2 1 ≡ suc (days_from_civil y 1 31)
unfolding days_from_civil
february y h = ground arith

april : (y : ℕ) → 1980 ≤ y → days_from_civil y 4 1 ≡ suc (days_from_civil y 3 31)
unfolding days_from_civil
april y h = ground arith

may : (y : ℕ) → 1980 ≤ y → days_from_civil y 5 1 ≡ suc (days_from_civil y 4 30)
unfolding days_from_civil
may y h = ground arith

june : (y : ℕ) → 1980 ≤ y → days_from_civil y 6 1 ≡ suc (days_from_civil y 5 31)
unfolding days_from_civil
june y h = ground arith

july : (y : ℕ) → 1980 ≤ y → days_from_civil y 7 1 ≡ suc (days_from_civil y 6 30)
unfolding days_from_civil
july y h = ground arith

august : (y : ℕ) → 1980 ≤ y → days_from_civil y 8 1 ≡ suc (days_from_civil y 7 31)
unfolding days_from_civil
august y h = ground arith

september : (y : ℕ) → 1980 ≤ y → days_from_civil y 9 1 ≡ suc (days_from_civil y 8 31)
unfolding days_from_civil
september y h = ground arith

october : (y : ℕ) → 1980 ≤ y → days_from_civil y 10 1 ≡ suc (days_from_civil y 9 30)
unfolding days_from_civil
october y h = ground arith

november : (y : ℕ) → 1980 ≤ y → days_from_civil y 11 1 ≡ suc (days_from_civil y 10 31)
unfolding days_from_civil
november y h = ground arith

december : (y : ℕ) → 1980 ≤ y → days_from_civil y 12 1 ≡ suc (days_from_civil y 11 30)
unfolding days_from_civil
december y h = ground arith

month_end :
    (y mo : ℕ)
    → 1980 ≤ y
    → 1 ≤ mo
    → mo ≤ 11
    → days_from_civil y (mo + 1) 1 ≡ suc (days_from_civil y mo (last_day y mo))
unfolding last_day
month_end y zero h k l = omega arith
month_end y (suc zero) h k l = february y h
month_end y (suc (suc zero)) h k l = march y h
month_end y (suc (suc (suc zero))) h k l = april y h
month_end y (suc (suc (suc (suc zero)))) h k l = may y h
month_end y (suc (suc (suc (suc (suc zero))))) h k l = june y h
month_end y (suc (suc (suc (suc (suc (suc zero)))))) h k l = july y h
month_end y (suc (suc (suc (suc (suc (suc (suc zero))))))) h k l = august y h
month_end y (suc (suc (suc (suc (suc (suc (suc (suc zero)))))))) h k l = september y h
month_end y (suc (suc (suc (suc (suc (suc (suc (suc (suc zero))))))))) h k l = october y h
month_end y (suc (suc (suc (suc (suc (suc (suc (suc (suc (suc zero)))))))))) h k l = november y h
month_end y (suc (suc (suc (suc (suc (suc (suc (suc (suc (suc (suc zero))))))))))) h k l =
    december y h
month_end y (suc (suc (suc (suc (suc (suc (suc (suc (suc (suc (suc (suc mo)))))))))))) h k l =
    omega arith

year_end :
    (y mo : ℕ)
    → mo ≡ 12
    → 1980 ≤ y
    → days_from_civil (y + 1) 1 1 ≡ suc (days_from_civil y mo (last_day y mo))
unfolding last_day
year_end y mo e h = rw e (new_year y h)

next_day-number :
    (y mo d : ℕ)
    → 1980 ≤ y
    → 1 ≤ mo
    → mo ≤ 12
    → 1 ≤ d
    → d ≤ last_day y mo
    → number (next_day y mo d) ≡ suc (days_from_civil y mo d)
unfolding next_day
next_day-number y mo d h k l m n = elim (Bool-cases (ltb d (last_day y mo))) [
  | inl inside ↦ rw inside (within y mo d h m)
  | inr at_end ↦
      let last : d ≡ last_day y mo = ground (arith, at_end) in
      elim (Bool-cases (ltb mo 12)) [
        | inl more ↦
            rw (at_end, more)
              (month_end y mo h k (ground (arith, more))
                ∙ ap (λ t. suc (days_from_civil y mo t)) (sym last))
        | inr december ↦
            rw (at_end, december)
              (year_end y mo (ground (arith, december)) h
                ∙ ap (λ t. suc (days_from_civil y mo t)) (sym last))
      ]
]

-- The day count rises by one from each day to the next, through the ends of months and years and
-- the leap days, for every year from 1980 on; it is 3652 on the first of January 1980.
pub days_from_civil-next_day :
    (y mo d : ℕ)
    → 1980 ≤ y
    → 1 ≤ mo
    → mo ≤ 12
    → 1 ≤ d
    → d ≤ last_day y mo
    → (number (next_day y mo d) ≡ suc (days_from_civil y mo d)) × (days_from_civil 1980 1 1 ≡ 3652)
days_from_civil-next_day y mo d h k l m n =
    (next_day-number y mo d h k l m n, unfold days_from_civil in refl)
