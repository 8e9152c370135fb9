-- ===== src/Memfs/File/Contents.antt =====
-- What `memory_file` of waterbox/memfs.cpp writes and reads.
use chimera_core_eka2l.Prelude.{
  ℕ, zero, suc, ◌+◌, ◌-◌, ◌≤◌, ◌<◌, ◌≡◌, refl, ◌∙◌, ap, ◌&&◌, [], ◌∷◌, ◌++◌, Bytes, ltb, leb,
  if◌then◌else◌, length, take, drop, replicate, length-append, length-replicate, length-take,
  length-drop, arith, get_or,
}
use chimera_core_eka2l.Memfs.File.{resized}

-- The byte at a position, 0 past the end: what a file is to its readers, besides its size.
abbrev pub byte : Bytes → ℕ → ℕ
byte b i = get_or b i 0

pub byte-append :
    (a b : Bytes) (i : ℕ)
    → byte (a ++ b) i ≡ (if ltb i (length a) then byte a i else byte b (i - length a))
byte-append [] b i = ground arith
byte-append (x ∷ a) b zero = ground arith
byte-append (x ∷ a) b (suc i) = ground (arith, byte-append a b i)

pub byte-take : (n : ℕ) (b : Bytes) (i : ℕ) → byte (take n b) i ≡ (if ltb i n then byte b i else 0)
byte-take zero b i = ground arith
byte-take (suc n) [] i = ground arith
byte-take (suc n) (x ∷ b) zero = ground arith
byte-take (suc n) (x ∷ b) (suc i) = ground (arith, byte-take n b i)

pub byte-drop : (n : ℕ) (b : Bytes) (i : ℕ) → byte (drop n b) i ≡ byte b (n + i)
byte-drop zero b i = ap (byte b) {y = 0 + i} (omega arith)
byte-drop (suc n) [] i = refl
byte-drop (suc n) (x ∷ b) i =
    byte-drop n b i ∙ ap (byte (x ∷ b)) {x = suc (n + i)} {y = suc n + i} (omega arith)

byte-zeros : (n i : ℕ) → byte (replicate n 0) i ≡ 0
byte-zeros zero i = refl
byte-zeros (suc n) zero = refl
byte-zeros (suc n) (suc i) = byte-zeros n i

pub byte_past : (b : Bytes) (i : ℕ) → length b ≤ i → byte b i ≡ 0
byte_past [] i h = refl
byte_past (x ∷ b) zero h = elim h [ ]
byte_past (x ∷ b) (suc i) h = byte_past b i (omega arith)

-- Byte strings of one size with the same bytes are equal.
pub eq_of_bytes :
    (a b : Bytes) → length a ≡ length b → ((i : ℕ) → i < length a → byte a i ≡ byte b i) → a ≡ b
eq_of_bytes [] [] e h = refl
eq_of_bytes [] (y ∷ b) e h = absurd (omega arith)
eq_of_bytes (x ∷ a) [] e h = absurd (omega arith)
eq_of_bytes (x ∷ a) (y ∷ b) e h =
    let tails : a ≡ b = eq_of_bytes a b (omega arith) (λ i k. h (suc i) (omega arith)) in
    cc (h 0 (omega arith))

pub length-resized : (b : Bytes) (n : ℕ) → length (resized b n) ≡ n
unfolding resized
length-resized b n =
    let zeros : length (replicate {A = ℕ} (n - length b) 0) ≡ n - length b =
      length-replicate (n - length b) 0 in
    length-append (take n b) (replicate (n - length b) 0) ∙ omega (arith, length-take n b, zeros)

-- A larger size leaves the bytes as they are, and 0 behind them.
pub byte-resized : (b : Bytes) (n i : ℕ) → length b ≤ n → byte (resized b n) i ≡ byte b i
unfolding resized
byte-resized b n i h = ground (
  arith,
  byte-append (take n b) (replicate (n - length b) 0) i,
  byte-take n b i,
  byte-zeros (n - length b) (i - length (take n b)),
  length-take n b,
  byte_past b i,
)

-- The splice that the copy makes.
abbrev pub splice : Bytes → ℕ → Bytes → Bytes
splice room at v = take at room ++ v ++ drop (at + length v) room

pub length-splice :
    (room v : Bytes) (at : ℕ)
    → at + length v ≤ length room
    → length (splice room at v) ≡ length room
length-splice room v at h =
    length-append (take at room ++ v) (drop (at + length v) room)
    ∙ omega (
      arith,
      length-append (take at room) v,
      length-take at room,
      length-drop (at + length v) room,
    )

pub byte-splice :
    (room v : Bytes) (at i : ℕ)
    → at + length v ≤ length room
    → byte (splice room at v) i
      ≡ (if leb at i && ltb i (at + length v) then byte v (i - at) else byte room i)
byte-splice room v at i h = ground (
  arith,
  byte-append (take at room ++ v) (drop (at + length v) room) i,
  byte-append (take at room) v i,
  byte-take at room i,
  byte-drop (at + length v) room (i - length (take at room ++ v)),
  length-append (take at room) v,
  length-take at room,
)
