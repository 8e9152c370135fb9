-- ===== src/Audio/Mix.antt =====
-- What the sink's sum is (waterbox/audio.cpp).
use chimera_core_eka2l.Prelude.{
  ℕ, zero, suc, ◌+◌, ◌*◌, ◌<◌, ◌≡◌, ◌⊎◌, sym, ◌∙◌, subst, none, some, List, [], ◌∷◌, ◌==◌, leb,
  length, length-set, length-replicate, set, replicate, arith, All, Option-cases, Bool-cases, inl,
  inr,
}
use chimera_core_eka2l.Audio.{
  ℤ, pos, negsuc, clamp, Stream, mix_frame, mix_from, mix_into, mix_all, render, source, wanted,
}

-- The samples of 16 bits.
abbrev pub IsSample : ℤ → Type 0
IsSample (pos a) = a < 32768
IsSample (negsuc a) = a < 32768

clamp-IsSample : (a : ℤ) → IsSample (clamp a)
unfolding clamp
clamp-IsSample (pos a) = ground arith
clamp-IsSample (negsuc a) = ground arith

All-set : (xs : List ℤ) (i : ℕ) (v : ℤ) → All IsSample xs → IsSample v → All IsSample (set xs i v)
All-set [] i v h k = h
All-set (x ∷ xs) zero v h k = (k, h.1)
All-set (x ∷ xs) (suc i) v h k = (h.0, All-set xs i v h.1 k)

pub All-replicate : (n : ℕ) → All IsSample (replicate n (pos 0))
All-replicate zero = tt
All-replicate (suc n) = (omega arith, All-replicate n)

-- An output of the right size, all of samples.
pub record IsOutput (n : ℕ) (out : List ℤ) : Type 0 where
  pub size : length out ≡ n
  pub range : All IsSample out

module _ {ℓ} {V : Type ℓ} (scaled : ℤ → V → ℤ) where
  mix_frame-IsOutput :
      (n : ℕ) (volume : V) (channels : ℕ) (scratch : List ℤ) (from i : ℕ) (out : List ℤ)
      → IsOutput n out
      → IsOutput n (mix_frame scaled volume channels scratch from i out)
  unfolding mix_frame
  mix_frame-IsOutput n volume channels scratch from i out h = record {
    size = length-set _ (i * 2 + 1) _ ∙ length-set out (i * 2) _ ∙ h.size;
    range =
        All-set _ (i * 2 + 1) _ (All-set out (i * 2) _ h.range (clamp-IsSample _))
          (clamp-IsSample _);
  }

  mix_from-IsOutput :
      (n : ℕ) (volume : V) (channels : ℕ) (scratch : List ℤ) (got want frames i m : ℕ)
      (out : List ℤ)
      → IsOutput n out
      → IsOutput n (mix_from scaled volume channels scratch got want frames i m out)
  unfolding mix_from
  mix_from-IsOutput n volume channels scratch got want frames i zero out h = h
  mix_from-IsOutput n volume channels scratch got want frames i (suc m) out h =
      elim (Bool-cases (leb got (source want frames i))) [
        | inl over ↦ rw over h
        | inr more ↦ rw more (
            mix_from-IsOutput n volume channels scratch got want frames (suc i) m _
              (mix_frame-IsOutput n volume channels scratch (source want frames i) i out h))
      ]

  mix_into-none :
      (frames rate : ℕ) (s : Stream V) (out : List ℤ)
      → s.callback ≡ none
      → mix_into scaled frames rate s out ≡ (s, out)
  unfolding mix_into
  mix_into-none frames rate s out h = ground (arith, h)

  mix_into-some :
      (frames rate : ℕ) (s : Stream V) (callback : ℕ → List ℤ × ℕ) (out : List ℤ)
      → s.callback ≡ some callback
      → let want = wanted frames s.sample_rate rate in
        ((mix_into scaled frames rate s out).1 ≡ out)
        ⊎ ((mix_into scaled frames rate s out).1
            ≡ mix_from scaled s.volume s.channels
                (callback want).0
                (callback want).1
                want
                frames
                0
                frames
                out)
  unfolding mix_into
  mix_into-some frames rate s callback out h = elim (Bool-cases s.playing) [
    | inl plays ↦ elim (Bool-cases ((callback (wanted frames s.sample_rate rate)).1 == 0)) [
      | inl nothing ↦ inl (ground (arith, h, plays, nothing))
      | inr some_frames ↦ inr (ground (arith, h, plays, some_frames))
    ]
    | inr still ↦ inl (ground (arith, h, still))
  ]

  mix_into-IsOutput :
      (n frames rate : ℕ) (s : Stream V) (out : List ℤ)
      → IsOutput n out
      → IsOutput n (mix_into scaled frames rate s out).1
  unfolding mix_into
  mix_into-IsOutput n frames rate s out h = elim (Option-cases s.callback) [
    | inl missing ↦ subst (λ t. IsOutput n t.1) (sym (mix_into-none frames rate s out missing)) h
    | inr (callback, found) ↦ elim (mix_into-some frames rate s callback out found) [
      | inl same ↦ subst (IsOutput n) (sym same) h
      | inr played ↦
          subst (IsOutput n) (sym played)
            (mix_from-IsOutput n s.volume s.channels _ _ _ frames 0 frames out h)
    ]
  ]

  mix_all-IsOutput :
      (n frames rate : ℕ) (streams : List (Stream V)) (out : List ℤ)
      → IsOutput n out
      → IsOutput n (mix_all scaled frames rate streams out).1
  mix_all-IsOutput n frames rate [] out h = h
  mix_all-IsOutput n frames rate (s ∷ streams) out h =
      mix_all-IsOutput n frames rate streams _ (mix_into-IsOutput n frames rate s out h)

  -- `render` fills exactly two samples a frame, each of 16 bits, whatever the streams hand over and
  -- whatever their volumes.
  pub render-IsOutput :
      (rate frames : ℕ) (streams : List (Stream V))
      → IsOutput (frames * 2) (render scaled rate frames streams).1
  unfolding render
  render-IsOutput rate frames streams =
      mix_all-IsOutput (frames * 2) frames rate streams (replicate (frames * 2) (pos 0))
        record { size = length-replicate (frames * 2) (pos 0); range = All-replicate (frames * 2) }
