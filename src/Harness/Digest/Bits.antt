-- ===== src/Harness/Digest/Bits.antt =====
-- Exclusive or, as the digests of waterbox/run-native.cpp use it: it keeps a width, and what is apart in
-- either argument.
use Prim.Native.Nat.{bit_xor, digits, differ, bit_xor-bitwise}
use native.Mathlib.Nat.{pow-suc, le_refl}
use chimera_core_eka2l.Prelude.{
  ℕ, zero, suc, ◌-◌, ◌/◌, ◌%◌, ◌^◌, ◌≤◌, ◌<◌, ◌≡◌, refl, sym, ◌∙◌, arith,
}

-- The exclusive or of the digits, with a count of the digits to go that may be too large.
abbrev xor_of : ℕ → ℕ → ℕ → ℕ
xor_of n a b = digits (λ y. y) differ n a b

differ-lt : (x y : ℕ) → x < 2 → y < 2 → differ x y < 2
differ-lt zero y p q = q
differ-lt (suc x) zero p q = p
differ-lt (suc x) (suc y) p q = differ-lt x y (omega arith) (omega arith)

differ_comm : (x y : ℕ) → differ x y ≡ differ y x
differ_comm zero zero = refl
differ_comm zero (suc y) = refl
differ_comm (suc x) zero = refl
differ_comm (suc x) (suc y) = differ_comm x y

differ-zero : (x : ℕ) → differ x 0 ≡ x
differ-zero zero = refl
differ-zero (suc x) = refl

differ-one : (x : ℕ) → x < 2 → differ x 1 ≡ 1 - x
differ-one zero p = refl
differ-one (suc zero) p = refl
differ-one (suc (suc x)) p = absurd (omega arith)

differ-injective : (x y z : ℕ) → x < 2 → y < 2 → z < 2 → differ x z ≡ differ y z → x ≡ y
differ-injective x y zero p q r h = omega (arith, differ-zero x, differ-zero y)
differ-injective x y (suc zero) p q r h = omega (arith, differ-one x p, differ-one y q)
differ-injective x y (suc (suc z)) p q r h = absurd (omega arith)

differ-injective_right : (x y z : ℕ) → x < 2 → y < 2 → z < 2 → differ x y ≡ differ x z → y ≡ z
differ-injective_right zero y z p q r h = h
differ-injective_right (suc zero) y z p q r h =
    differ-injective y z 1 q r p (differ_comm y 1 ∙ h ∙ differ_comm 1 z)
differ-injective_right (suc (suc x)) y z p q r h = absurd (omega arith)

xor_of-lt : (k n a b : ℕ) → a < 2 ^ k → b < 2 ^ k → xor_of n a b < 2 ^ k
xor_of-lt k zero a b p q = q
xor_of-lt k (suc n) zero b p q = q
xor_of-lt zero (suc n) (suc a) b p q = absurd (omega arith)
xor_of-lt (suc k) (suc n) (suc a) b p q = omega (
  arith,
  pow-suc 2 k,
  xor_of-lt k n (suc a / 2) (b / 2) (omega (arith, pow-suc 2 k)) (omega (arith, pow-suc 2 k)),
  differ-lt (suc a % 2) (b % 2) (omega arith) (omega arith),
)

-- One digit of a number that is not 0, and the rest.
xor_of-suc :
    (n a b h : ℕ)
    → xor_of (suc n) (suc a) b ≡ h
    → (xor_of n (suc a / 2) (b / 2) ≡ h / 2) × (differ (suc a % 2) (b % 2) ≡ h % 2)
xor_of-suc n a b h e =
    let small = differ-lt (suc a % 2) (b % 2) (omega arith) (omega arith) in
    (omega arith, omega arith)

xor_of_none : (n b : ℕ) → xor_of n 0 b ≡ b
xor_of_none zero b = refl
xor_of_none (suc n) b = refl

-- A number whose digits change none of another's is 0.
xor_of-same : (n a b : ℕ) → a ≤ n → xor_of n a b ≡ b → a ≡ 0
xor_of-same n zero b p h = refl
xor_of-same zero (suc a) b p h = absurd (omega arith)
xor_of-same (suc n) (suc a) b p h =
    let (high, low) = xor_of-suc n a b b h in
    omega (
      arith,
      xor_of-same n (suc a / 2) (b / 2) (omega arith) high,
      differ-injective (suc a % 2) 0 (b % 2) (omega arith) (omega arith) (omega arith) low,
    )

xor_of-injective : (n m a c b : ℕ) → a ≤ n → c ≤ m → xor_of n a b ≡ xor_of m c b → a ≡ c
xor_of-injective n m zero c b p q h = sym (xor_of-same m c b q (sym h ∙ xor_of_none n b))
xor_of-injective n m a zero b p q h = xor_of-same n a b p (h ∙ xor_of_none m b)
xor_of-injective zero m (suc a) (suc c) b p q h = absurd (omega arith)
xor_of-injective (suc n) zero (suc a) (suc c) b p q h = absurd (omega arith)
xor_of-injective (suc n) (suc m) (suc a) (suc c) b p q h =
    let (high, low) = xor_of-suc n a b _ h in
    let (high', low') = xor_of-suc m c b _ refl in
    omega (
      arith,
      xor_of-injective n m (suc a / 2) (suc c / 2) (b / 2) (omega arith) (omega arith)
          (high ∙ sym high'),
      differ-injective (suc a % 2) (suc c % 2) (b % 2) (omega arith) (omega arith) (omega arith)
          (low ∙ sym low'),
    )

xor_of-injective_right : (n a b c : ℕ) → xor_of n a b ≡ xor_of n a c → b ≡ c
xor_of-injective_right zero a b c h = h
xor_of-injective_right (suc n) zero b c h = h
xor_of-injective_right (suc n) (suc a) b c h =
    let (high, low) = xor_of-suc n a b _ h in
    let (high', low') = xor_of-suc n a c _ refl in
    omega (
      arith,
      xor_of-injective_right n (suc a / 2) (b / 2) (c / 2) (high ∙ sym high'),
      differ-injective_right (suc a % 2) (b % 2) (c % 2) (omega arith) (omega arith) (omega arith)
          (low ∙ sym low'),
    )

pub bit_xor-lt : (k a b : ℕ) → a < 2 ^ k → b < 2 ^ k → bit_xor a b < 2 ^ k
bit_xor-lt k a b p q = simp bit_xor-bitwise (xor_of-lt k a a b p q)

pub bit_xor-injective : (a c b : ℕ) → bit_xor a b ≡ bit_xor c b → a ≡ c
bit_xor-injective a c b h =
    xor_of-injective a c a c b (le_refl a) (le_refl c)
      (sym (bit_xor-bitwise a b) ∙ h ∙ bit_xor-bitwise c b)

pub bit_xor-injective_right : (a b c : ℕ) → bit_xor a b ≡ bit_xor a c → b ≡ c
bit_xor-injective_right a b c h =
    xor_of-injective_right a a b c (sym (bit_xor-bitwise a b) ∙ h ∙ bit_xor-bitwise a c)
