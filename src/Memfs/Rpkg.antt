-- ===== src/Memfs/Rpkg.antt =====
-- waterbox/memfs.cpp: `mount_rpkg`, which mounts a drive out of a package's bytes.
pub mod Records
use chimera_core_eka2l.Prelude.{
  ℕ, zero, suc, ◌+◌, ◌-◌, ◌*◌, ◌%◌, ◌^◌, Bool, true, false, not, ◌&&◌, ◌||◌, Option, none, some,
  List, [], ◌∷◌, ◌++◌, Bytes, codes, ltb, leb, ◌==◌, if◌then◌else◌, set, drop, take, is_empty,
  length, Outcome, returns, throws, undefined,
}
use chimera_core_eka2l.Memfs.Path.{lowered, split_path}
use chimera_core_eka2l.Memfs.Node.{
  Node, node, name, children, set_name, set_dir, set_fixed, set_children, or_empty, find, put,
}
use chimera_core_eka2l.Memfs.Types.{Platform, FileSystem, Attributes, attrib_none, Media, rom, root}
use chimera_core_eka2l.Memfs.Resolve.{mount_empty}

-- A number of the image, least byte first.
unfoldable pub little : Bytes → ℕ
little [] = 0
little (b ∷ bs) = b + 256 * little bs

abbrev pub field : ℕ → ℕ → Bytes → ℕ
field at n image = little (take n (drop at image))

-- The `take` lambdas before the loop: none where one of them fails, or the header says no. What is
-- left is where the first entry stands.
unfoldable pub header : Bytes → Option Bytes
unfolding little
header image =
    let magic = field 0 4 image in
    let fourth = field 12 4 image in
    if ltb (length image) 16
    then none
    else if not (magic == b'R')
        || not (field 4 4 image == b'P')
        || not (field 8 4 image == b'K')
        || not (fourth == b'G' || fourth == b'2')
    then none
    else if ltb (length image) 24
    then none
    else if not (fourth == b'2')
    then some (drop 24 image)
    else if ltb (length image) 32 || not (field 24 4 image == 32)
    then none
    else some (drop 32 image)

abbrev pub u64 : ℕ
u64 = 2 ^ 64

-- `max_size()` of a `std::u16string` is below this many characters.
abbrev pub u16_limit : ℕ
u16_limit = 2 ^ 62

-- The path's UCS-2 bytes with `path.substr(3)` taken, when there are more than 3 characters.
abbrev pub relative_path : Platform → ℕ → Bytes → Bytes
relative_path p path_len path =
    if ltb 3 path_len then lowered (p.ucs2_to_utf8 (drop 6 path)) else []

-- One component of the loop over `parts`: named if it is new, a directory unless it is the last.
abbrev pub part_node : Bytes → List Bytes → Node → Node
part_node part rest n =
    set_dir (not (is_empty rest)) (if is_empty (name n) then set_name part n else n)

-- The walk down `parts`, making what is missing; the last one gets the bytes.
unfoldable pub place_file : Bytes → Node → List Bytes → Node
place_file content at [] = set_fixed content at
place_file content at (part ∷ rest) =
    set_children
      (put part (place_file content (part_node part rest (or_empty (find part (children at)))) rest)
        (children at))
      at

-- `"z:\\" + relative`, split.
abbrev pub file_parts : Bytes → List Bytes
file_parts relative = (split_path (codes "z:\\" ++ relative)).parts

-- The loop over the entries, on fuel: each round takes 32 bytes at least. The check of the path's
-- length is made on 64-bit numbers, and `std::u16string(path_len)` throws where it is too long.
unfoldable pub read_entries : Platform → ℕ → Bytes → Node → ℕ → Outcome (Node × ℕ)
unfolding little place_file
read_entries p zero cursor at files = returns (at, files)
read_entries p (suc fuel) cursor at files =
    let path_len = field 16 8 cursor in
    let body = drop 24 cursor in
    let behind = drop (path_len * 2) body in
    let data_size = field 0 8 behind in
    let data' = drop 8 behind in
    let relative = relative_path p path_len (take (path_len * 2) body) in
    let parts = file_parts relative in
    let more =
      read_entries p fuel (drop data_size data')
        (if is_empty parts then at else place_file (take data_size data') at parts)
        (if is_empty parts then files else files + 1) in
    if ltb (length cursor) 24
    then returns (at, files)
    else if ltb (length body) ((path_len * 2 + 8) % u64)
    then returns (at, files)
    else if leb u16_limit path_len
    then throws
    else if ltb (length data') data_size
    then returns (at, files)
    else more

abbrev pub rpkg_attributes : Attributes
rpkg_attributes = record attrib_none { internal = true; write_protected = true }

-- The end of `mount_rpkg`: the root as the loop left it, and the number of files.
abbrev pub mounted : FileSystem → ℕ → Bytes → Outcome (Node × ℕ) → Outcome (FileSystem × Option ℕ)
mounted fs drv image (returns (n, files)) =
    returns
      (record fs { roots = set fs.roots drv n; packages = fs.packages ++ image ∷ [] }, some files)
mounted fs drv image throws = throws
mounted fs drv image undefined = undefined

-- Behind the header: the drive is mounted, and the entries are read into its root.
abbrev pub mount_at :
    Platform → ℕ → Bytes → Bytes → FileSystem × Bool → Outcome (FileSystem × Option ℕ)
mount_at p drv image cursor (fs, fresh) =
    if not fresh
    then returns (fs, none)
    else mounted fs drv image (read_entries p (length cursor) cursor (root fs drv) 0)

abbrev pub mount_from :
    Platform → FileSystem → ℕ → Bytes → Option Bytes → Outcome (FileSystem × Option ℕ)
mount_from p fs drv image none = returns (fs, none)
mount_from p fs drv image (some cursor) =
    mount_at p drv image cursor (mount_empty fs drv rom rpkg_attributes)

-- `mount_rpkg`: none for the answer -1.
unfoldable pub mount_rpkg : Platform → FileSystem → ℕ → Bytes → Outcome (FileSystem × Option ℕ)
mount_rpkg p fs drv image = mount_from p fs drv image (header image)
