-- ===== src/Memfs/File.antt =====
-- waterbox/memfs.cpp: `memory_file`, an open file. Its methods take the node that its pointer
-- reaches; `position_` is an unsigned 64-bit number, and `std::size_t` has 64 bits.
pub mod Contents
pub mod Laws
pub mod Io
use chimera_core_eka2l.Prelude.{
  ℕ, ◌+◌, ◌-◌, ◌*◌, ◌%◌, ◌^◌, min, Bool, true, false, not, ◌&&◌, ◌||◌, Option, none, some, List, [],
  ◌++◌, Bytes, ltb, leb, ◌==◌, if◌then◌else◌, length, take, drop, replicate, is_some, Outcome,
  returns, throws, undefined,
}
use chimera_core_eka2l.Memfs.Node.{Node, bytes, fixed, content, set_bytes}
use chimera_core_eka2l.Memfs.Types.{Mode, Place}

abbrev pub u64 : ℕ
u64 = 2 ^ 64

-- `max_size()` of a vector of bytes.
abbrev pub max_size : ℕ
max_size = 2 ^ 63 - 1

pub record File : Type 0 where
  pub node : Place
  pub name : Bytes
  pub mode : Mode
  pub position : ℕ

-- `size()`
unfoldable pub size : Node → ℕ
size n = length (content n)

-- The constructor.
unfoldable pub memory_file : Place → Node → Bytes → Mode → File
unfolding size
memory_file at n name mode = record {
  node = at;
  name = name;
  mode = mode;
  position = if mode.append then size n else 0;
}

-- `resize`: new bytes are 0.
unfoldable pub resized : Bytes → ℕ → Bytes
resized b n = take n b ++ replicate (n - length b) 0

-- `write_file(data, size, count)`. The copy goes to `position_`, whatever the size became: it stays
-- inside the two buffers, or what happens is undefined.
unfoldable pub write_file : Node → File → Bytes → ℕ → ℕ → Outcome (Node × File × ℕ)
unfolding resized
write_file n f data' size count =
    if (not f.mode.write && not f.mode.append) || is_some (fixed n)
    then returns (n, f, 0)
    else let total = size * count % u64 in
      let stop = (f.position + total) % u64 in
      let grows = ltb (length (bytes n)) stop in
      if grows && ltb max_size stop
      then throws
      else let room = if grows then resized (bytes n) stop else bytes n in
        if leb total (length data') && leb (f.position + total) (length room)
        then returns (
          set_bytes (take f.position room ++ take total data' ++ drop (f.position + total) room) n,
          record f { position = (f.position + total) % u64 },
          total,
        )
        else undefined

-- `read_file(data, size, count)`: the bytes that are put at `data`; the result is their number.
unfoldable pub read_file : Node → File → ℕ → ℕ → File × Bytes
unfolding size
read_file n f sz count =
    let left = size n - min f.position (size n) in
    let asked = sz * count % u64 in
    let want = if ltb left asked then left else asked in
    if want == 0 then (f, []) else (
      record f { position = (f.position + want) % u64 },
      take want (drop f.position (content n)),
    )

pub data SeekMode : Type 0 where
  beg crr end address : SeekMode

-- A signed 64-bit sum of two bit patterns, which the language defines if it does not overflow.
abbrev pub negative : ℕ → Bool
negative w = leb (2 ^ 63) w

unfoldable pub signed_sum : ℕ → ℕ → Outcome ℕ
signed_sum a b =
    let s = (a + b) % u64 in
    elim (negative a) [
      | true ↦ elim (negative b) [
        | true ↦ if negative s then returns s else undefined
        | false ↦ returns s
      ]
      | false ↦ elim (negative b) [
        | true ↦ returns s
        | false ↦ if negative s then undefined else returns s
      ]
    ]

abbrev pub moved : File → Outcome ℕ → Outcome (File × ℕ)
moved f (returns w) = returns (record f { position = w }, w)
moved f throws = throws
moved f undefined = undefined

-- `seek(offset, where)`, for the bit pattern of `offset`. `address` is refused by all ones.
unfoldable pub seek : Node → File → ℕ → SeekMode → Outcome (File × ℕ)
unfolding size signed_sum
seek n f offset beg = moved f (returns offset)
seek n f offset crr = moved f (signed_sum f.position offset)
seek n f offset end = moved f (signed_sum (size n) offset)
seek n f offset address = returns (record f { position = offset }, 0xFFFF_FFFF_FFFF_FFFF)

unfoldable pub tell : File → ℕ
tell f = f.position

-- `resize(new_size)`
unfoldable pub resize : Node → ℕ → Outcome (Node × Bool)
unfolding resized
resize n new_size =
    if is_some (fixed n)
    then returns (n, false)
    else if ltb max_size new_size
    then throws
    else returns (set_bytes (resized (bytes n) new_size) n, true)

-- `valid()`
unfoldable pub valid : Node → File → Bool
unfolding size
valid n f = ltb f.position (size n)
