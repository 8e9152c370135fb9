-- ===== src/Harness/Native/Verify/Clean.antt =====
-- What a clean report of `--verify` (waterbox/run-native.cpp) says.
use chimera_core_eka2l.Prelude.{
  ℕ, zero, suc, ◌+◌, ◌-◌, ◌*◌, ◌≤◌, ◌<◌, min, ◌≡◌, ◌↔◌, refl, sym, ap, ◌∙◌, Bool, true, false, none,
  [], ◌∷◌, ◌++◌, Bytes, ltb, leb, ◌==◌, length, take, drop, replicate, arith, Bool-cases, le→leb,
  inl, inr, length-take, length-drop, take_all,
}
use chimera_core_eka2l.Vclock.{u64}
use chimera_core_eka2l.Savestate.RoundTrip.{drop-drop, take_split, append_assoc, append_nil}
use chimera_core_eka2l.Memfs.Node.{Node, content}
use chimera_core_eka2l.Memfs.File.{File, size, seek, read_file, max_size}
use chimera_core_eka2l.Memfs.File.Contents.{byte-take, byte-drop, eq_of_bytes}
use chimera_core_eka2l.Memfs.File.Laws.{read_file_lem}
use chimera_core_eka2l.Harness.Native.Verify.{
  piece, piece_read, verify_from, read_back, first_difference,
}

-- What a read puts at `data`: the piece of the content.
read_file_piece :
    (n : Node) (f : File) (c : ℕ)
    → c * 1 < u64
    → size n ≤ max_size
    → (read_file n f c 1).1 ≡ take c (drop f.position (content n))
unfolding size
read_file_piece n f c small sized =
    let (len, moved, same) = read_file_lem n f c 1 small sized in
    let part = drop f.position (content n) in
    eq_of_bytes (read_file n f c 1).1 (take c part)
      (omega (arith, len, length-take c part, length-drop f.position (content n)))
      (λ i k. ground (arith, same i, byte-take c part i, byte-drop f.position (content n) i, len))

-- What reading back gives: the content, as far as it goes, and zeros behind it.
abbrev pub padded : ℕ → Bytes → Bytes
padded total b = take total b ++ replicate (total - length b) 0

padded-append :
    (c m : ℕ) (d : Bytes) → c ≤ length d → take c d ++ padded m (drop c d) ≡ padded (c + m) d
padded-append c m d h =
    sym (append_assoc (take c d) (take m (drop c d)) (replicate (m - length (drop c d)) 0))
    ∙ ap (λ t. t ++ replicate (m - length (drop c d)) 0) (take_split c m d)
    ∙ ap (λ k. take (c + m) d ++ replicate k 0) {x = m - length (drop c d)} {y = c + m - length d}
        (omega (arith, length-drop c d))

padded_short :
    (c left : ℕ) (d : Bytes)
    → length d ≤ c
    → c ≤ left
    → take c d ++ replicate (left - length (take c d)) 0 ≡ padded left d
padded_short c left d h k =
    ap (λ t. t ++ replicate (left - length t) 0) (take_all c d h)
    ∙ ap (λ t. t ++ replicate (left - length d) 0) (sym (take_all left d (omega arith)))

gt→leb : (a b : ℕ) → b < a → leb a b ≡ false
gt→leb a b h = ground arith

module _ (n : Node) (sized : size n ≤ max_size) where
  -- One piece, where the loop goes on.
  piece_lem :
      (f : File) (total at chunk : ℕ) (rest : Bytes × Bool)
      → at ≤ length (content n)
      → 0 < chunk
      → chunk ≤ piece
      → chunk ≤ total - at
      → (at + chunk ≤ length (content n)
          → rest ≡ (
            padded (total - (at + chunk)) (drop (at + chunk) (content n)),
            leb total (length (content n)),
          ))
      → piece_read (total - at) chunk (read_file n (record f { position = at }) chunk 1).1 rest
        ≡ (padded (total - at) (drop at (content n)), leb total (length (content n)))
  piece_lem f total at chunk rest within some_bytes short less ih =
      let d = drop at (content n) in
      let got : (read_file n (record f { position = at }) chunk 1).1 ≡ take chunk d =
        read_file_piece n (record f { position = at }) chunk (omega arith) sized in
      let size_d = length-drop at (content n) in
      let size_got = length-take chunk d in
      ap (λ b. piece_read (total - at) chunk b rest) got
      ∙ elim (Bool-cases (length (take chunk d) == chunk)) [
        | inl whole ↦
            let fits : chunk ≤ length d = ground (arith, whole, size_got) in
            let m = total - (at + chunk) in
            let next = ih (omega (arith, fits, size_d, within)) in
            rw whole (
              ap (λ (r : Bytes × Bool). (take chunk d ++ r.0, r.1)) next
              ∙ ap (λ t. (t, leb total (length (content n))))
                  (ap (λ t. take chunk d ++ padded m t) (sym (drop-drop chunk at (content n)))
                    ∙ padded-append chunk m d fits
                    ∙ ap (λ k. padded k d) {x = chunk + m} {y = total - at} (omega arith)))
        | inr cut ↦
            let few : length d ≤ chunk = ground (arith, cut, size_got) in
            rw cut (
              ap (λ t. (t, false)) (padded_short chunk (total - at) d few less)
              ∙ ap (λ b. (padded (total - at) d, b))
                  (sym (gt→leb total (length (content n)) (ground (arith, cut, size_got, size_d)))))
      ]

  all_read :
      (total at : ℕ)
      → total ≤ at
      → at ≤ length (content n)
      → ◌≡◌ {A = Bytes × Bool}
          ([], true)
          (padded (total - at) (drop at (content n)), leb total (length (content n)))
  all_read total at over within =
      ap (λ k. (replicate {A = ℕ} k 0, true)) {x = 0} {y = 0 - length (drop at (content n))}
        (omega arith)
      ∙ ap (λ k. (padded k (drop at (content n)), true)) {x = 0} {y = total - at} (omega arith)
      ∙ ap (λ b. (padded (total - at) (drop at (content n)), b))
          (sym (le→leb total (length (content n)) (omega arith)))

  verify_from_lem :
      (fuel : ℕ) (f : File) (total at : ℕ)
      → total - at ≤ fuel
      → at ≤ length (content n)
      → verify_from fuel n f total at
        ≡ (padded (total - at) (drop at (content n)), leb total (length (content n)))
  unfolding verify_from seek
  verify_from_lem zero f total at enough within = all_read total at (omega arith) within
  verify_from_lem (suc fuel) f total at enough within = elim (Bool-cases (ltb at total)) [
    | inl more ↦ rw more (
        piece_lem f total at (min piece (total - at)) _ within (ground (arith, more)) (omega arith)
          (omega arith)
          (λ k.
            verify_from_lem fuel _ total (at + min piece (total - at)) (ground (arith, more)) k))
    | inr over ↦ rw over (all_read total at (ground (arith, over)) within)
  ]

  read_back_lem :
      (f : File) (total : ℕ)
      → read_back n f total ≡ (padded total (content n), leb total (length (content n)))
  unfolding read_back
  read_back_lem f total =
      verify_from_lem total f total 0 (omega arith) (omega arith)
      ∙ ap (λ k. (padded k (content n), leb total (length (content n)))) {x = total - 0}
          (omega arith)

first_difference_refl : (b : Bytes) → first_difference b b ≡ none
unfolding first_difference
first_difference_refl [] = refl
first_difference_refl (x ∷ b) = ground (arith, first_difference_refl b)

no_difference : (a b : Bytes) → length a ≡ length b → first_difference a b ≡ none → a ≡ b
unfolding first_difference
no_difference [] [] e h = refl
no_difference [] (y ∷ b) e h = absurd (omega arith)
no_difference (x ∷ a) [] e h = absurd (omega arith)
no_difference (x ∷ a) (y ∷ b) e h = ground (arith, no_difference a b)

padded_self : (b : Bytes) → padded (length b) b ≡ b
padded_self b =
    ap (λ t. t ++ replicate (length b - length b) 0) (take_all (length b) b (omega arith))
    ∙ ap (λ k. b ++ replicate k 0) {x = length b - length b} {y = 0} (omega arith)
    ∙ append_nil b

-- The report is clean: no short read, no difference, and one size.
abbrev pub IsClean : Node → File → Bytes → Type 0
IsClean n f want =
    ((read_back n f (length want)).1 ≡ true)
    × (first_difference (read_back n f (length want)).0 want ≡ none)
    × (size n ≡ length want)

-- Of a file no larger than a vector can be, and whatever position its handle has, `--verify` reports
-- no short read, no difference and the host's size exactly when the file is the host's, byte for byte.
pub read_back-IsClean :
    (n : Node) (f : File) (want : Bytes) → size n ≤ max_size → IsClean n f want ↔ (content n ≡ want)
unfolding size
read_back-IsClean n f want sized = (
  λ (whole, same, one_size).
      sym (padded_self (content n))
      ∙ ap (λ k. padded k (content n)) one_size
      ∙ no_difference (padded (length want) (content n)) want
          (ap length (ap (λ k. padded k (content n)) (sym one_size) ∙ padded_self (content n))
            ∙ one_size)
          (ap (λ r. first_difference r.0 want) (sym (read_back_lem n sized f (length want)))
            ∙ same),
  λ e. (
    ap (λ r. r.1) (read_back_lem n sized f (length want))
        ∙ le→leb (length want) (length (content n)) (omega (arith, ap length e)),
    ap (λ r. first_difference r.0 want) (read_back_lem n sized f (length want))
        ∙ ap (λ b. first_difference (padded (length want) b) want) e
        ∙ ap (λ t. first_difference t want) (padded_self want)
        ∙ first_difference_refl want,
    ap length e,
  ),
)
