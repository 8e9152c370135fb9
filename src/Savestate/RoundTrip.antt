-- ===== src/Savestate/RoundTrip.antt =====
-- A savestate read back is the one that was written (waterbox/run-wbx.c).
use native.Mathlib.Nat.{mod-eq_of_lt}
use chimera_core_eka2l.Prelude.{
  ℕ, zero, suc, ◌+◌, ◌-◌, ◌*◌, ◌%◌, ◌≤◌, ◌<◌, ◌≡◌, refl, sym, ap, ◌∙◌, Bool, true, ◌&&◌, List, [],
  ◌∷◌, ◌++◌, Bytes, ltb, length, take, drop, length-append, length-drop, take_all, arith,
  Bool-cases, inl, inr,
}
use chimera_core_eka2l.Vclock.{u64}
use chimera_core_eka2l.Savestate.{StateBuf, stored, state_write, state_read, for_save, for_load}

-- The host's writes one after another, and whether all of them were taken.
unfoldable pub write_all : (ℕ → Bool) → List Bytes → StateBuf → StateBuf × Bool
unfolding state_write
write_all realloc [] b = (b, true)
write_all realloc (d ∷ chunks) b =
    let r = state_write realloc d b in
    let rest = write_all realloc chunks r.0 in (rest.0, r.1 && rest.1)

-- Its reads, each with the size that it asks for.
unfoldable pub read_all : List ℕ → StateBuf → Bytes
unfolding state_read
read_all [] b = []
read_all (n ∷ sizes) b = let r = state_read n b in r.1 ++ read_all sizes r.0

abbrev pub concat : List Bytes → Bytes
concat [] = []
concat (d ∷ chunks) = d ++ concat chunks

abbrev pub total : List ℕ → ℕ
total [] = 0
total (n ∷ sizes) = n + total sizes

pub append_assoc : (xs ys zs : Bytes) → (xs ++ ys) ++ zs ≡ xs ++ (ys ++ zs)
append_assoc [] ys zs = refl
append_assoc (x ∷ xs) ys zs = ap (λ t. x ∷ t) (append_assoc xs ys zs)

pub append_nil : (xs : Bytes) → xs ++ [] ≡ xs
append_nil [] = refl
append_nil (x ∷ xs) = ap (λ t. x ∷ t) (append_nil xs)

drop_nil : (n : ℕ) → drop {A = ℕ} n [] ≡ []
drop_nil zero = refl
drop_nil (suc n) = refl

take_nil : (n : ℕ) → take {A = ℕ} n [] ≡ []
take_nil zero = refl
take_nil (suc n) = refl

drop_all : (n : ℕ) (xs : Bytes) → length xs ≤ n → drop n xs ≡ []
drop_all zero [] h = refl
drop_all zero (x ∷ xs) h = ground (arith, h)
drop_all (suc n) [] h = refl
drop_all (suc n) (x ∷ xs) h = drop_all n xs (omega (arith, h))

pub drop-drop : (m n : ℕ) (xs : Bytes) → drop m (drop n xs) ≡ drop (n + m) xs
drop-drop m zero xs = ap (λ k. drop k xs) {x = m} {y = zero + m} (omega arith)
drop-drop m (suc n) [] = drop_nil m ∙ sym (drop_nil (suc n + m))
drop-drop m (suc n) (x ∷ xs) =
    drop-drop m n xs ∙ ap (λ k. drop k (x ∷ xs)) {x = suc (n + m)} {y = suc n + m} (omega arith)

pub take_split : (m n : ℕ) (xs : Bytes) → take m xs ++ take n (drop m xs) ≡ take (m + n) xs
take_split zero n xs = ap (λ k. take k xs) {x = n} {y = zero + n} (omega arith)
take_split (suc m) n [] = take_nil n ∙ sym (take_nil (suc m + n))
take_split (suc m) n (x ∷ xs) =
    ap (λ t. x ∷ t) (take_split m n xs)
    ∙ ap (λ k. take k (x ∷ xs)) {x = suc (m + n)} {y = suc m + n} (omega arith)

-- What is taken past the end is what is there.
take_bound : (n m : ℕ) (xs : Bytes) → length xs ≤ n → length xs ≤ m → take n xs ≡ take m xs
take_bound n m xs a b = take_all n xs a ∙ sym (take_all m xs b)

-- A read hands over what is next, as much as there is of what it asks for.
state_read-take : (n : ℕ) (b : StateBuf) → (state_read n b).1 ≡ take n (drop b.pos b.p)
unfolding state_read
state_read-take n b = elim (Bool-cases (ltb (length b.p - b.pos) n)) [
  | inl past ↦ rw past (
      take_bound (length b.p - b.pos) n (drop b.pos b.p) (omega (arith, length-drop b.pos b.p))
        (ground (arith, past, length-drop b.pos b.p)))
  | inr within ↦ rw within refl
]

-- What is left behind a read.
state_read-drop : (n : ℕ) (b : StateBuf) → drop (state_read n b).0.pos b.p ≡ drop (b.pos + n) b.p
unfolding state_read
state_read-drop n b = elim (Bool-cases (ltb (length b.p - b.pos) n)) [
  | inl past ↦ rw past (
      drop_all (b.pos + (length b.p - b.pos)) b.p (omega arith)
      ∙ sym (drop_all (b.pos + n) b.p (ground (arith, past))))
  | inr within ↦ rw within refl
]

-- Reads of any sizes, one after another, are one read of their sum.
read_all-take :
    (sizes : List ℕ) (b : StateBuf) → read_all sizes b ≡ take (total sizes) (drop b.pos b.p)
unfolding read_all
read_all-take [] b = refl
read_all-take (n ∷ sizes) b =
    ap (λ x. x ++ read_all sizes (state_read n b).0) (state_read-take n b)
    ∙ ap (λ y. take n (drop b.pos b.p) ++ y)
        (read_all-take sizes (state_read n b).0 ∙ ap (take (total sizes)) (left n b))
    ∙ take_split n (total sizes) (drop b.pos b.p)
  where
    left :
        (n : ℕ) (b : StateBuf)
        → drop (state_read n b).0.pos (state_read n b).0.p ≡ drop n (drop b.pos b.p)
    left n b = state_read-drop n b ∙ sym (drop-drop n b.pos b.p)

-- A buffer that writes leave: the bytes are behind those that it had, in a block that holds them.
pub record Written (chunks : List Bytes) (b c : StateBuf) : Type 0 where
  pub bytes : c.p ≡ b.p ++ concat chunks
  pub held : length c.p ≤ c.cap

stored-Written :
    (realloc : ℕ → Bool) (d : Bytes) (b : StateBuf) (need want : ℕ)
    → need ≡ length b.p + length d
    → need ≤ want
    → (stored realloc d b need want).1 ≡ true
    → Written (d ∷ []) b (stored realloc d b need want).0
stored-Written realloc d b need want size more taken =
    let bytes : b.p ++ d ≡ b.p ++ (d ++ []) = ap (λ t. b.p ++ t) (sym (append_nil d)) in
    let sum = length-append b.p d in
    elim (Bool-cases (ltb b.cap need)) [
      | inl full ↦ elim (Bool-cases (realloc want)) [
        | inl given ↦
            rw (full, given) (record { bytes = bytes; held = omega (arith, sum, size, more) })
        | inr refused ↦ ground (arith, taken, full, refused)
      ]
      | inr fits ↦ rw fits (record { bytes = bytes; held = ground (arith, fits, sum, size) })
    ]

state_write-Written :
    (realloc : ℕ → Bool) (d : Bytes) (b : StateBuf)
    → (length b.p + length d) * 2 < u64
    → (state_write realloc d b).1 ≡ true
    → Written (d ∷ []) b (state_write realloc d b).0
unfolding state_write
state_write-Written realloc d b room taken =
    let n : ℕ = length b.p + length d in
    let need : n % u64 ≡ n = mod-eq_of_lt (omega (arith, room)) in
    let want : n % u64 * 2 % u64 ≡ n * 2 = ap (λ t. t * 2 % u64) need ∙ mod-eq_of_lt room in
    stored-Written realloc d b (n % u64) (n % u64 * 2 % u64) need (omega (arith, need, want)) taken

pub write_all-Written :
    (realloc : ℕ → Bool) (chunks : List Bytes) (b : StateBuf)
    → length b.p ≤ b.cap
    → (length b.p + length (concat chunks)) * 2 < u64
    → (write_all realloc chunks b).1 ≡ true
    → Written chunks b (write_all realloc chunks b).0
unfolding write_all
write_all-Written realloc [] b held room taken = record {
  bytes = sym (append_nil b.p);
  held = held;
}
write_all-Written realloc (d ∷ chunks) b held room taken =
    let size = length-append d (concat chunks) in
    let now =
      both_true (state_write realloc d b).1 (write_all realloc chunks (state_write realloc d b).0).1
        taken in
    let first = state_write-Written realloc d b (omega (arith, size, room)) now.0 in
    let fits =
      ap length first.bytes
      ∙ length-append b.p (d ++ [])
      ∙ ap (λ t. length b.p + length t) (append_nil d) in
    let rest =
      write_all-Written realloc chunks (state_write realloc d b).0 first.held
        (omega (arith, fits, size, room)) now.1 in
    record {
      bytes =
          rest.bytes
          ∙ ap (λ t. t ++ concat chunks) (first.bytes ∙ ap (λ t. b.p ++ t) (append_nil d))
          ∙ append_assoc b.p d (concat chunks);
      held = rest.held;
    }
  where
    both_true : (x y : Bool) → (x && y) ≡ true → (x ≡ true) × (y ≡ true)
    both_true x y h = ground (arith, h)

-- A savestate that the host wrote, with every write taken and fewer than 2^63 bytes in all, is what it
-- reads back, whatever the sizes of the writes and of the reads, as long as the reads ask for it all;
-- and the block holds it.
pub write_all-read_all :
    (realloc : ℕ → Bool) (chunks : List Bytes) (sizes : List ℕ) (b : StateBuf)
    → length (concat chunks) * 2 < u64
    → (write_all realloc chunks (for_save b)).1 ≡ true
    → length (concat chunks) ≤ total sizes
    → (read_all sizes (for_load (write_all realloc chunks (for_save b)).0) ≡ concat chunks)
      × (length (write_all realloc chunks (for_save b)).0.p
          ≤ (write_all realloc chunks (for_save b)).0.cap)
unfolding for_save for_load
write_all-read_all realloc chunks sizes b room taken all =
    let w =
      write_all-Written realloc chunks (for_save b) (omega arith) (omega (arith, room)) taken in
    (
      read_all-take sizes (for_load (write_all realloc chunks (for_save b)).0)
          ∙ ap (take (total sizes)) w.bytes
          ∙ take_all (total sizes) (concat chunks) all,
      w.held,
    )
