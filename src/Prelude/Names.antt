-- ===== src/Prelude/Names.antt =====
-- Byte strings (`std::string`, byte vectors): equality, the order of `std::map`, and literals.
use Prim.Native.Nat.{ℕ}
use Prim.Native.Char.{code}
use Prim.Native.String.{String}
use mathlib.Core.Path.{◌≡◌, refl, subst}
use mathlib.Core.Logic.{◌↔◌}
use mathlib.Core.Bool.{Bool, true, false, ◌&&◌, ◌||◌}
use mathlib.Core.List.{List, [], ◌∷◌}
use native.Mathlib.Omega.{arith}
use package.chimera_core_eka2l.Prelude.Tests.{ltb, ◌==◌}

abbrev pub Bytes : Type 0
Bytes = List ℕ

-- A literal's bytes.
abbrev pub codes : String → Bytes
codes String.[] = []
codes (String.◌∷◌ c s) = code c ∷ codes s

unfoldable pub eqb : Bytes → Bytes → Bool
eqb [] [] = true
eqb [] (b ∷ bs) = false
eqb (a ∷ as') [] = false
eqb (a ∷ as') (b ∷ bs) = a == b && eqb as' bs

-- `operator<` of `std::string`: lexicographic, on unsigned bytes.
unfoldable pub less : Bytes → Bytes → Bool
less [] [] = false
less [] (b ∷ bs) = true
less (a ∷ as') [] = false
less (a ∷ as') (b ∷ bs) = ltb a b || (a == b && less as' bs)

pub eqb_refl : (a : Bytes) → eqb a a ≡ true
unfolding eqb
eqb_refl [] = refl
eqb_refl (x ∷ xs) = ground (arith, eqb_refl xs)

pub eq_of_eqb : (a b : Bytes) → eqb a b ≡ true → a ≡ b
unfolding eqb
eq_of_eqb [] [] h = refl
eq_of_eqb [] (b ∷ bs) h = cc
eq_of_eqb (a ∷ as') [] h = cc
eq_of_eqb (a ∷ as') (b ∷ bs) h = ground (arith, eq_of_eqb as' bs)

pub eqb_iff : (a b : Bytes) → (eqb a b ≡ true) ↔ (a ≡ b)
eqb_iff a b = (eq_of_eqb a b, λ e. subst (λ t. eqb a t ≡ true) e (eqb_refl a))

pub less_trans : (a b c : Bytes) → less a b ≡ true → less b c ≡ true → less a c ≡ true
unfolding less
less_trans [] [] c h k = cc
less_trans [] (y ∷ ys) [] h k = cc
less_trans [] (y ∷ ys) (z ∷ zs) h k = refl
less_trans (x ∷ xs) [] c h k = cc
less_trans (x ∷ xs) (y ∷ ys) [] h k = cc
less_trans (x ∷ xs) (y ∷ ys) (z ∷ zs) h k = ground (arith, less_trans xs ys zs)

pub less_irrefl : (a : Bytes) → less a a ≡ false
unfolding less
less_irrefl [] = refl
less_irrefl (x ∷ xs) = ground (arith, less_irrefl xs)

-- Two names are equal or ordered.
pub less_total : (a b : Bytes) → eqb b a ≡ false → less a b ≡ false → less b a ≡ true
unfolding less eqb
less_total [] [] h k = cc
less_total [] (b ∷ bs) h k = cc
less_total (a ∷ as') [] h k = refl
less_total (a ∷ as') (b ∷ bs) h k = ground (arith, less_total as' bs)
