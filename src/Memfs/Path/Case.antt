-- ===== src/Memfs/Path/Case.antt =====
-- The helpers of waterbox/memfs.cpp commute with lowering the case of a path.
use mathlib.Core.List.{map-append}
use mathlib.Core.Path.{ap₂}
use chimera_core_eka2l.Prelude.{
  ℕ, zero, suc, ◌≡◌, refl, ap, sym, List, [], ◌∷◌, ◌++◌, map, Bytes, ltb, if◌then◌else◌, arith,
  length, take, drop, Bool-cases, inl, inr,
}
use chimera_core_eka2l.Memfs.Path.{
  tolower, lowered, is_separator, Split, flush, components, split_path, starts, system_libs,
  system_programs, sys_bin, rewrite_for_eka2,
}

pub tolower-tolower : (c : ℕ) → tolower (tolower c) ≡ tolower c
tolower-tolower c = ground arith

pub lowered-lowered : (s : Bytes) → lowered (lowered s) ≡ lowered s
unfolding lowered
lowered-lowered [] = refl
lowered-lowered (c ∷ s) = ground (arith, lowered-lowered s, tolower-tolower c)

pub lowered_parts : (parts : List Bytes) → map lowered (map lowered parts) ≡ map lowered parts
lowered_parts [] = refl
lowered_parts (part ∷ parts) = ground (arith, lowered_parts parts, lowered-lowered part)

is_separator-tolower : (c : ℕ) → is_separator (tolower c) ≡ is_separator c
is_separator-tolower c = ground arith

flush-lowered :
    (current : Bytes) (parts : List Bytes)
    → flush (lowered current) (map lowered parts) ≡ map lowered (flush current parts)
unfolding lowered
flush-lowered [] parts = refl
flush-lowered (c ∷ current) parts = sym (map-append lowered parts ((c ∷ current) ∷ []))

components-lowered :
    (path current : Bytes) (parts : List Bytes)
    → components (lowered path) (lowered current) (map lowered parts)
      ≡ map lowered (components path current parts)
unfolding lowered components
components-lowered [] current parts = flush-lowered current parts
components-lowered (c ∷ path) current parts = elim (Bool-cases (is_separator c)) [
  | inl separator ↦ ground (
    arith,
    is_separator-tolower c,
    flush-lowered current parts,
    components-lowered path [] (flush current parts),
  )
  | inr plain ↦ ground (
    arith,
    is_separator-tolower c,
    map-append tolower current (c ∷ []),
    components-lowered path (current ++ c ∷ []) parts,
  )
]

abbrev pub lowered_split : Split → Split
lowered_split s = record s { parts = map lowered s.parts }

drop-lowered : (n : ℕ) (s : Bytes) → drop n (lowered s) ≡ lowered (drop n s)
unfolding lowered
drop-lowered zero s = refl
drop-lowered (suc n) [] = refl
drop-lowered (suc n) (c ∷ s) = drop-lowered n s

take-lowered : (n : ℕ) (s : Bytes) → take n (lowered s) ≡ lowered (take n s)
unfolding lowered
take-lowered zero s = refl
take-lowered (suc n) [] = refl
take-lowered (suc n) (c ∷ s) = ap (λ t. tolower c ∷ t) (take-lowered n s)

length-lowered : (s : Bytes) → length (lowered s) ≡ length s
unfolding lowered
length-lowered [] = refl
length-lowered (c ∷ s) = ap suc (length-lowered s)

starts-lowered : (path what : Bytes) → starts (lowered path) what ≡ starts path what
unfolding starts lowered
starts-lowered path [] = refl
starts-lowered [] (w ∷ what) = refl
starts-lowered (c ∷ path) (w ∷ what) = ground (arith, starts-lowered path what, tolower-tolower c)

pub split_path-lowered :
    (path : Bytes) → split_path (lowered path) ≡ lowered_split (split_path path)
unfolding split_path lowered
split_path-lowered [] = refl
split_path-lowered (c ∷ []) = ground (arith, components-lowered (c ∷ []) [] [])
split_path-lowered (c ∷ d ∷ path) = ground (
  arith,
  components-lowered (c ∷ d ∷ path) [] [],
  components-lowered path [] [],
  tolower-tolower c,
)

-- The path with `n` bytes of it replaced, behind the drive.
spliced : ℕ → Bytes → Bytes
spliced n path = take 2 path ++ sys_bin ++ drop n path

spliced-lowered : (n : ℕ) (path : Bytes) → spliced n (lowered path) ≡ lowered (spliced n path)
unfolding spliced lowered
spliced-lowered n path =
    rw
      (
        map-append tolower (take 2 path ++ sys_bin) (drop n path),
        map-append tolower (take 2 path) sys_bin,
      )
      (ap₂ (λ s t. s ++ sys_bin ++ t) (take-lowered 2 path) (drop-lowered n path))

rewrite-spliced :
    (path : Bytes)
    → rewrite_for_eka2 path ≡ (
        if ltb (length path) 14
        then path
        else if starts (drop 2 path) system_libs
        then spliced 14 path
        else if starts (drop 2 path) system_programs
        then spliced 18 path
        else path)
unfolding rewrite_for_eka2 spliced
rewrite-spliced path = refl

pub rewrite-lowered :
    (path : Bytes) → rewrite_for_eka2 (lowered path) ≡ lowered (rewrite_for_eka2 path)
rewrite-lowered path =
    rw
      (
        rewrite-spliced, rewrite-spliced, length-lowered, drop-lowered, starts-lowered,
        starts-lowered,
      )
      (ground (arith, spliced-lowered 14 path, spliced-lowered 18 path))
