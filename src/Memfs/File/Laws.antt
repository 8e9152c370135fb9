-- ===== src/Memfs/File/Laws.antt =====
-- The methods of `memory_file` of waterbox/memfs.cpp, against a file as a function from positions to
-- bytes.
use chimera_core_eka2l.Prelude.{
  ℕ, ◌+◌, ◌-◌, ◌*◌, ◌%◌, ◌≤◌, ◌<◌, min, max, ◌≡◌, refl, ◌∙◌, sym, true, ◌&&◌, ◌||◌, none, [], ◌∷◌,
  Bytes, ltb, leb, ◌==◌, if◌then◌else◌, length, take, drop, length-take, length-drop, take_all,
  arith, Outcome, returns,
}
use chimera_core_eka2l.Memfs.Node.{Node, node, bytes, fixed, content, set_bytes}
use chimera_core_eka2l.Memfs.Types.{Mode}
use chimera_core_eka2l.Memfs.File.{u64, max_size, File, size, resized, write_file, read_file}
use chimera_core_eka2l.Memfs.File.Contents.{
  byte, byte-take, byte-drop, eq_of_bytes, length-resized, byte-resized, splice, length-splice,
  byte-splice,
}

-- A handle that may write.
abbrev pub Writes : Mode → Type 0
Writes m = (m.write || m.append) ≡ true

-- The vector before the copy: large enough for it.
abbrev room : Bytes → ℕ → Bytes
room b stop = if ltb (length b) stop then resized b stop else b

length-room : (b : Bytes) (stop : ℕ) → length (room b stop) ≡ max (length b) stop
length-room b stop = ground (arith, length-resized b stop)

byte-room : (b : Bytes) (stop i : ℕ) → byte (room b stop) i ≡ byte b i
byte-room b stop i = ground (arith, byte-resized b stop i)

-- What `write_file` leaves: the file as it was, with the data over it from the position on.
pub record Written (n : Node) (f : File) (v : Bytes) (n' : Node) (f' : File) : Type 0 where
  pub position : f'.position ≡ f.position + length v
  pub size' : length (bytes n') ≡ max (length (bytes n)) (f.position + length v)
  pub contents :
      (i : ℕ)
      → byte (bytes n') i ≡ (
          if leb f.position i && ltb i (f.position + length v)
          then byte v (i - f.position)
          else byte (bytes n) i)
  pub others : n' ≡ set_bytes (bytes n') n

-- The node that a write of `v` leaves.
abbrev after_write : Node → File → Bytes → Node
after_write n f v = set_bytes (splice (room (bytes n) (f.position + length v)) f.position v) n

after_write-Written :
    (n : Node) (f : File) (v : Bytes)
    → Written n f v (after_write n f v) (record f { position = f.position + length v })
after_write-Written (node a d c b x) f v =
    let stop = f.position + length v in
    record {
      position = refl;
      size' =
          length-splice (room b stop) v f.position (omega (arith, length-room b stop))
          ∙ length-room b stop;
      contents = λ i.
          byte-splice (room b stop) v f.position i (omega (arith, length-room b stop))
          ∙ ground (arith, byte-room b stop i);
      others = refl;
    }

write_file-eq :
    (n : Node) (f : File) (v : Bytes) (size count : ℕ)
    → Writes f.mode
    → fixed n ≡ none
    → size * count ≡ length v
    → f.position + length v ≤ max_size
    → write_file n f v size count
      ≡ returns (after_write n f v, record f { position = f.position + length v }, length v)
unfolding write_file
write_file-eq (node a d c b x) f v size count w free e fits =
    let total : size * count % u64 ≡ length v = omega arith in
    let stop : (f.position + length v) % u64 ≡ f.position + length v = omega arith in
    rw (total, stop, take_all (length v) v (omega arith), free)
      (ground (arith, length-room b (f.position + length v)))

-- A write through a handle that may write, to a file that is the machine's own, writes the whole
-- buffer of `size * count` bytes while it ends below the largest vector: the position moves past
-- it, the file grows to hold it and never shrinks, the bytes under it are the buffer's, all others
-- are as they were (0 in a gap), and nothing else of the entry changes.
pub write_file_lem :
    (n : Node) (f : File) (v : Bytes) (size count : ℕ)
    → Writes f.mode
    → fixed n ≡ none
    → size * count ≡ length v
    → f.position + length v ≤ max_size
    → (n' : Node) × (f' : File) × (write_file n f v size count ≡ returns (n', f', length v))
      × Written n f v n' f'
write_file_lem n f v size count w free e fits = (
  after_write n f v,
  record f { position = f.position + length v },
  write_file-eq n f v size count w free e fits,
  after_write-Written n f v,
)

-- The number of bytes that a read gives.
abbrev given : Node → File → ℕ → ℕ
given n f asked = min asked (length (content n) - f.position)

read_file-eq :
    (n : Node) (f : File) (sz count : ℕ)
    → sz * count < u64
    → size n ≤ max_size
    → read_file n f sz count ≡ (
        if given n f (sz * count) == 0 then (f, []) else (
          record f { position = f.position + given n f (sz * count) },
          take (given n f (sz * count)) (drop f.position (content n)),
        ))
unfolding read_file size
read_file-eq n f sz count h small =
    let asked : sz * count % u64 ≡ sz * count = omega arith in
    let left = length (content n) - min f.position (length (content n)) in
    let want : (if ltb left (sz * count) then left else sz * count) ≡ given n f (sz * count) =
      ground arith in
    rw (asked, want) (ground arith)

-- A read gives the bytes that stand at the position, as many as were asked for and are there, and
-- moves the position past them. It never reads outside the file. (The bytes asked for are counted
-- in 64 bits, and the file is no larger than a vector can be.)
pub read_file_lem :
    (n : Node) (f : File) (sz count : ℕ)
    → sz * count < u64
    → size n ≤ max_size
    → let (f', got) = read_file n f sz count in
      (length got ≡ min (sz * count) (size n - f.position))
      × (f'.position ≡ f.position + length got)
      × ((i : ℕ) → i < length got → byte got i ≡ byte (content n) (f.position + i))
unfolding size
read_file_lem n f sz count h small =
    let w = given n f (sz * count) in
    let part = take w (drop f.position (content n)) in
    let same = read_file-eq n f sz count h small in
    rw same (
      ground
          (arith, length-take w (drop f.position (content n)), length-drop f.position (content n)),
      ground
          (arith, length-take w (drop f.position (content n)), length-drop f.position (content n)),
      λ i k. ground (
        arith,
        length-take w (drop f.position (content n)),
        byte-take w (drop f.position (content n)) i,
        byte-drop f.position (content n) i,
      ),
    )

-- Where the data of a write stand in the node that it leaves.
written_part :
    (n : Node) (f : File) (v : Bytes)
    → fixed n ≡ none
    → take (length v) (drop f.position (content (after_write n f v))) ≡ v
written_part (node a d c b x) f v free =
    let w = after_write-Written (node a d c b x) f v in
    let new = splice (room b (f.position + length v)) f.position v in
    rw free (
      eq_of_bytes (take (length v) (drop f.position new)) v
        (omega (
          arith,
          length-take (length v) (drop f.position new),
          length-drop f.position new,
          w.size',
        ))
        (λ i k. ground (
          arith,
          length-take (length v) (drop f.position new),
          byte-take (length v) (drop f.position new) i,
          byte-drop f.position new i,
          w.contents (f.position + i),
        )))

size-after_write :
    (n : Node) (f : File) (v : Bytes)
    → fixed n ≡ none
    → length (content (after_write n f v)) ≡ max (length (bytes n)) (f.position + length v)
size-after_write (node a d c b x) f v free =
    rw free (after_write-Written (node a d c b x) f v).size'

-- Round trip. After a write that `write_file_lem` describes, of a file no larger than a vector can
-- be, a read of as many bytes from where it began gives the data back, and
-- leaves the handle as the write left it.
pub read_file-write_file :
    (n n' : Node) (f f' : File) (v : Bytes) (sz count written : ℕ)
    → Writes f.mode
    → fixed n ≡ none
    → sz * count ≡ length v
    → f.position + length v ≤ max_size
    → length (bytes n) ≤ max_size
    → write_file n f v sz count ≡ returns (n', f', written)
    → read_file n' f sz count ≡ (f', v)
unfolding size
read_file-write_file n n' f f' v sz count written w free e fits small h =
    let m = after_write n f v in
    let both : ◌≡◌ {A = Outcome (Node × File × ℕ)}
        (returns (m, record f { position = f.position + length v }, length v))
        (returns (n', f', written)) =
      sym (write_file-eq n f v sz count w free e fits) ∙ h in
    let e-n : m ≡ n' = cc both in
    let e-f : ◌≡◌ {A = File} (record f { position = f.position + length v }) f' = cc both in
    let len = size-after_write n f v free in
    let all : given m f (sz * count) ≡ length v = omega arith in
    rw
      (
        ← e-n,
        ← e-f,
        read_file-eq m f sz count (omega arith) (omega arith),
        all,
        written_part n f v free,
      )
      (empty v)
  where
    empty :
        (s : Bytes)
        → ◌≡◌ {A = File × Bytes}
            (if length s == 0 then (f, []) else (record f { position = f.position + length s }, s))
            (record f { position = f.position + length s }, s)
    empty [] = ground arith
    empty (x ∷ s) = ground arith
