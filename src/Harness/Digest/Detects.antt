-- ===== src/Harness/Digest/Detects.antt =====
-- What the digests of waterbox/run-native.cpp tell apart.
use Prim.Native.Nat.{bit_xor}
use chimera_core_eka2l.Prelude.{
  ℕ, ◌*◌, ◌%◌, ◌<◌, ◌≡◌, ◌≢◌, refl, sym, ◌∙◌, List, [], ◌∷◌, ◌++◌, All, arith,
}
use chimera_core_eka2l.Vclock.{u64}
use chimera_core_eka2l.Harness.Digest.{
  prime, digest_step, digest_all, offset_basis, ScreenReport, screen_from, screen_report,
}
use chimera_core_eka2l.Harness.Digest.Bits.{bit_xor-lt, bit_xor-injective, bit_xor-injective_right}

times_prime-injective : (x y : ℕ) → x < u64 → y < u64 → x * prime % u64 ≡ y * prime % u64 → x ≡ y
times_prime-injective x y p q h = omega arith

digest_step-lt : (d v : ℕ) → digest_step d v < u64
unfolding digest_step
digest_step-lt d v = omega arith

-- The step keeps apart what is apart, in either argument.
digest_step-injective :
    (d e v : ℕ) → d < u64 → e < u64 → v < u64 → digest_step d v ≡ digest_step e v → d ≡ e
unfolding digest_step
digest_step-injective d e v p q r h = bit_xor-injective d e v (
    times_prime-injective (bit_xor d v) (bit_xor e v) (bit_xor-lt 64 d v p r)
      (bit_xor-lt 64 e v q r) h)

digest_step-injective_item :
    (d v w : ℕ) → d < u64 → v < u64 → w < u64 → digest_step d v ≡ digest_step d w → v ≡ w
unfolding digest_step
digest_step-injective_item d v w p q r h = bit_xor-injective_right d v w (
    times_prime-injective (bit_xor d v) (bit_xor d w) (bit_xor-lt 64 d v p q)
      (bit_xor-lt 64 d w p r) h)

abbrev pub IsWord : ℕ → Type 0
IsWord v = v < u64

digest_all-injective :
    (vs : List ℕ) (d e : ℕ)
    → d < u64
    → e < u64
    → All IsWord vs
    → digest_all d vs ≡ digest_all e vs
    → d ≡ e
unfolding digest_all
digest_all-injective [] d e p q words h = h
digest_all-injective (v ∷ vs) d e p q words h = digest_step-injective d e v p q words.0 (
    digest_all-injective vs (digest_step d v) (digest_step e v) (digest_step-lt d v)
      (digest_step-lt e v) words.1 h)

digest_all-differ :
    (before after : List ℕ) (d v w : ℕ)
    → d < u64
    → All IsWord (before ++ v ∷ after)
    → w < u64
    → v ≢ w
    → digest_all d (before ++ v ∷ after) ≢ digest_all d (before ++ w ∷ after)
unfolding digest_all
digest_all-differ [] after d v w p words small ne h = ne (
    digest_step-injective_item d v w p words.0 small (
      digest_all-injective after (digest_step d v) (digest_step d w) (digest_step-lt d v)
        (digest_step-lt d w) words.1 h))
digest_all-differ (b ∷ before) after d v w p words small ne h =
    digest_all-differ before after (digest_step d b) v w (digest_step-lt d b) words.1 small ne h

pub screen_from-digest :
    (pixels : List ℕ) (r : ScreenReport)
    → (screen_from pixels r).digest ≡ digest_all r.digest pixels
unfolding screen_from digest_all
screen_from-digest [] r = refl
screen_from-digest (pixel ∷ pixels) r = screen_from-digest pixels _

-- Two pictures that differ in one pixel and in no other have different digests.
pub screen_report-differ :
    (before after : List ℕ) (v w : ℕ)
    → All IsWord (before ++ v ∷ after)
    → w < u64
    → v ≢ w
    → (screen_report (before ++ v ∷ after)).digest ≢ (screen_report (before ++ w ∷ after)).digest
unfolding screen_report
screen_report-differ before after v w words small ne h =
    digest_all-differ before after offset_basis v w (omega arith) words small ne (
      sym (screen_from-digest (before ++ v ∷ after) _)
      ∙ h
      ∙ screen_from-digest (before ++ w ∷ after) _)
