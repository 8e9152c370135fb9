-- ===== src/Memfs/Entries/Rewrite.antt =====
-- A file opened for writing alone and written (waterbox/memfs.cpp), against the map from pointers to
-- contents.
use mathlib.Core.Option
use mathlib.Core.Option.{some-injective}
use chimera_core_eka2l.Prelude.{
  ℕ, suc, ◌≤◌, ◌<◌, ◌≡◌, refl, ◌∙◌, ap, sym, subst, true, false, Option, none, some, [], ◌∷◌, map,
  Bytes, length, length-set, arith, Bool-cases, Option-cases, inl, inr, returns, undefined,
}
use chimera_core_eka2l.Memfs.Path.{split_path, lowered}
use chimera_core_eka2l.Memfs.Node.{Node, node, is_dir, bytes, fixed, set_bytes, content}
use chimera_core_eka2l.Memfs.Types.{Platform, FileSystem, Mode, Place, node_at, update, drives}
use chimera_core_eka2l.Memfs.Types.Update.{node_at-update, node_at-update-Apart, Apart}
use chimera_core_eka2l.Memfs.Types.WellFormed.{IsWellFormed}
use chimera_core_eka2l.Memfs.Resolve.{resolve, drive_of, looked_up}
use chimera_core_eka2l.Memfs.Resolve.Laws.{place, place_of, with_node, resolve-eq}
use chimera_core_eka2l.Memfs.Resolve.Parent.{drive_of-lt, place_of-update, resolve_at}
use chimera_core_eka2l.Memfs.File.{File, memory_file, write_file, max_size}
use chimera_core_eka2l.Memfs.File.Contents.{byte, byte_past}
use chimera_core_eka2l.Memfs.File.Io.{stored, write}
use chimera_core_eka2l.Memfs.File.Laws.{Written, write_file_lem}
use chimera_core_eka2l.Memfs.Entries.{open_file, open_resolved, open_node, read_whole}

-- Bytes are their length and the byte at each position.
bytes_ext : (a b : Bytes) → length a ≡ length b → ((i : ℕ) → byte a i ≡ byte b i) → a ≡ b
bytes_ext [] [] e h = refl
bytes_ext [] (y ∷ b) e h = ground (arith, e)
bytes_ext (x ∷ a) [] e h = ground (arith, e)
bytes_ext (x ∷ a) (y ∷ b) e h =
    ap (λ t. t ∷ a) (h 0) ∙ ap (λ t. y ∷ t) (bytes_ext a b (omega (arith, e)) (λ i. h (suc i)))

abbrev pub write_only : Mode
write_only = record { read = false; write = true; append = false; others = 0 }

place_of-lt :
    (p : Platform) (fs : FileSystem) (raw : Bytes) (at : Place)
    → place_of p fs raw ≡ some at
    → at.drive < drives
unfolding place_of place
place_of-lt p fs raw at h =
    let s = split_path (looked_up p fs raw) in
    elim (Bool-cases s.ok) [
      | inl ok ↦ elim (Option-cases (drive_of fs s.drive_letter)) [
        | inl missing ↦ absurd (ground (arith, h, ok, missing))
        | inr (drv, found) ↦
            let e : ◌≡◌ {A = Option Place}
                (some (record { drive = drv; keys = map lowered s.parts })) (some at) =
              ground (arith, h, ok, found) in
            subst (λ x. x.drive < drives)
              (some-injective (record { drive = drv; keys = map lowered s.parts }) at e)
              (drive_of-lt fs s.drive_letter drv found)
      ]
      | inr bad ↦ absurd (ground (arith, h, bad))
    ]

-- What a path that leads somewhere says.
record Found (p : Platform) (fs : FileSystem) (raw : Bytes) (at : Place) (n : Node) : Type 0 where
  here : place_of p fs raw ≡ some at
  there : node_at fs at ≡ some n

resolve-Found :
    (p : Platform) (fs : FileSystem) (raw : Bytes) (at : Place) (n : Node)
    → resolve p fs raw ≡ some (at, n)
    → Found p fs raw at n
resolve-Found p fs raw at n h = elim (Option-cases (place_of p fs raw)) [
  | inl missing ↦ absurd (none-ne (sym h ∙ resolve-eq p fs raw ∙ ap (with_node fs) missing))
  | inr (a, found) ↦
      let e = sym h ∙ resolve_at p fs raw a found in
      elim (Option-cases (node_at fs a)) [
        | inl gone ↦ absurd (none-ne (e ∙ ap (Option.map (λ m. (a, m))) gone))
        | inr (m, there) ↦
            let both = some-injective (at, n) (a, m) (e ∙ ap (Option.map (λ m. (a, m))) there) in
            record {
              here = found ∙ ap (λ x. some x.0) (sym both);
              there = ap (λ x. node_at fs x.0) both ∙ there ∙ ap (λ x. some x.1) (sym both);
            }
      ]
]
  where
    none-ne : {x : Place × Node} → ◌≡◌ {A = Option (Place × Node)} (some x) none → ⊥
    none-ne e = cc e

-- What `open_file` for writing alone does with a file that is there.
record Opened (fs : FileSystem) (path : Bytes) (at : Place) (n : Node) (fs1 : FileSystem) (f : File)
    : Type 0 where
  plain : is_dir n ≡ false
  free : fixed n ≡ none
  state : update fs at (set_bytes []) ≡ fs1
  handle : memory_file at (set_bytes [] n) path write_only ≡ f

open_file-Opened :
    (p : Platform) (fs : FileSystem) (path : Bytes) (at : Place) (n : Node) (fs1 : FileSystem)
    (f : File)
    → resolve p fs (p.ucs2_to_utf8 path) ≡ some (at, n)
    → open_file p fs path write_only ≡ (fs1, some f)
    → Opened fs path at n fs1 f
unfolding open_file open_resolved open_node
open_file-Opened p fs path at n fs1 f h k = elim (Bool-cases (is_dir n)) [
  | inl dir ↦ absurd (ground (arith, h, k, dir))
  | inr plain ↦ elim (Option-cases (fixed n)) [
    | inl free ↦ record {
      plain = plain;
      free = free;
      state = ground (arith, h, k, plain, free);
      handle = ground (arith, h, k, plain, free);
    }
    | inr (v, fixed') ↦ absurd (ground (arith, h, k, plain, fixed'))
  ]
]

-- What a write of the whole content through the handle leaves: the path's content is the data, and
-- nothing that does not lie at the file's pointer has changed.
pub record Rewritten (p : Platform) (fs : FileSystem) (raw : Bytes) (at : Place) (v : Bytes)
    (fs1 : FileSystem) (f : File) : Type 0 where
  pub state : FileSystem
  pub handle : File
  pub written : write fs1 f v 1 (length v) ≡ returns (state, handle, length v)
  pub whole : read_whole p state raw ≡ some v
  pub others : (other : Place) → Apart at other → node_at state other ≡ node_at fs other

fixed-set_bytes : (v : Bytes) (n : Node) → fixed (set_bytes v n) ≡ fixed n
fixed-set_bytes v (node a d c b f) = refl

bytes-set_bytes : (v : Bytes) (n : Node) → bytes (set_bytes v n) ≡ v
bytes-set_bytes v (node a d c b f) = refl

is_dir-set_bytes : (v : Bytes) (n : Node) → is_dir (set_bytes v n) ≡ is_dir n
is_dir-set_bytes v (node a d c b f) = refl

content-bytes : (n : Node) → fixed n ≡ none → content n ≡ bytes n
content-bytes (node a d c b none) h = refl
content-bytes (node a d c b (some v)) h = cc

-- A write into an empty file makes it the data.
bytes-Written :
    (n : Node) (f : File) (v : Bytes) (n' : Node) (f' : File)
    → bytes n ≡ []
    → f.position ≡ 0
    → Written n f v n' f'
    → bytes n' ≡ v
bytes-Written n f v n' f' empty start w =
    bytes_ext (bytes n') v (omega (arith, w.size', ap length empty, start))
      (λ i. w.contents i ∙ rw (start, empty) (ground (arith, byte_past v i)))

read_whole_at :
    (p : Platform) (fs : FileSystem) (raw : Bytes) (at : Place) (n : Node)
    → place_of p fs raw ≡ some at
    → node_at fs at ≡ some n
    → is_dir n ≡ false
    → read_whole p fs raw ≡ some (content n)
unfolding read_whole
read_whole_at p fs raw at n here there plain =
    let r : resolve p fs raw ≡ some (at, n) =
      resolve_at p fs raw at here ∙ ap (Option.map (λ m. (at, m))) there in
    ground (arith, r, plain)

write_at :
    (fs : FileSystem) (f : File) (n n' : Node) (f' : File) (v : Bytes) (written : ℕ)
    → node_at fs f.node ≡ some n
    → write_file n f v 1 (length v) ≡ returns (n', f', written)
    → write fs f v 1 (length v) ≡ returns (update fs f.node (set_bytes (bytes n')), f', written)
unfolding write
write_at fs f n n' f' v written there e =
    ap (λ o. elim o [ none ↦ undefined | some m ↦ stored fs f (write_file m f v 1 (length v)) ])
      there
    ∙ ap (stored fs f) e

length-update :
    (fs : FileSystem) (at : Place) (g : Node → Node)
    → length (update fs at g).roots ≡ length fs.roots
unfolding update
length-update fs at g = length-set fs.roots at.drive _

emptied-Rewritten :
    (p : Platform) (fs : FileSystem) (raw path v : Bytes) (at : Place) (n : Node)
    → IsWellFormed fs
    → Found p fs raw at n
    → is_dir n ≡ false
    → fixed n ≡ none
    → length v ≤ max_size
    → Rewritten p fs raw at v
        (update fs at (set_bytes []))
        (memory_file at (set_bytes [] n) path write_only)
unfolding memory_file
emptied-Rewritten p fs raw path v at n w found plain free fits =
    let n0 = set_bytes [] n in
    let fs0 = update fs at (set_bytes []) in
    let f0 = memory_file at n0 path write_only in
    let here0 = place_of-update p fs at (set_bytes []) raw ∙ found.here in
    let lt : at.drive < length fs.roots =
      omega (arith, place_of-lt p fs raw at found.here, w.all_roots) in
    let lt0 : at.drive < length fs0.roots = omega (arith, lt, length-update fs at (set_bytes [])) in
    let there0 : node_at fs0 at ≡ some n0 =
      node_at-update fs at (set_bytes []) lt ∙ ap (Option.map (set_bytes [])) found.there in
    let free0 = fixed-set_bytes [] n ∙ free in
    let (n1, f1, e, wr) =
      write_file_lem n0 f0 v 1 (length v) refl free0 (omega arith) (omega (arith, fits)) in
    let g = set_bytes (bytes n1) in
    record {
      state = update fs0 at g;
      handle = f1;
      written = write_at fs0 f0 n0 n1 f1 v (length v) there0 e;
      whole =
          read_whole_at p (update fs0 at g) raw at (g n0) (place_of-update p fs0 at g raw ∙ here0)
            (node_at-update fs0 at g lt0 ∙ ap (Option.map g) there0)
            (is_dir-set_bytes (bytes n1) n0 ∙ is_dir-set_bytes [] n ∙ plain)
          ∙ ap some (
              content-bytes (g n0) (fixed-set_bytes (bytes n1) n0 ∙ free0)
              ∙ bytes-set_bytes (bytes n1) n0
              ∙ bytes-Written n0 f0 v n1 f1 (bytes-set_bytes [] n) refl wr);
      others = λ other apart.
          node_at-update-Apart fs0 at other g lt0 apart
          ∙ node_at-update-Apart fs at other (set_bytes []) lt apart;
    }

-- On a well-formed filesystem, where `open_file` for writing alone opens a file that is there: a write
-- of fewer than 2^63 bytes through the handle writes them all, `read_whole` of the path gives them
-- back, and nothing that lies apart from the file has changed.
pub open_file-write :
    (p : Platform) (fs : FileSystem) (path v : Bytes) (at : Place) (n : Node) (fs1 : FileSystem)
    (f : File)
    → IsWellFormed fs
    → resolve p fs (p.ucs2_to_utf8 path) ≡ some (at, n)
    → open_file p fs path write_only ≡ (fs1, some f)
    → length v ≤ max_size
    → Rewritten p fs (p.ucs2_to_utf8 path) at v fs1 f
open_file-write p fs path v at n fs1 f w h k fits =
    let o = open_file-Opened p fs path at n fs1 f h k in
    let r =
      emptied-Rewritten p fs (p.ucs2_to_utf8 path) path v at n w
        (resolve-Found p fs (p.ucs2_to_utf8 path) at n h) o.plain o.free fits in
    subst (λ s. Rewritten p fs (p.ucs2_to_utf8 path) at v s f) o.state
      (subst (λ y. Rewritten p fs (p.ucs2_to_utf8 path) at v (update fs at (set_bytes [])) y)
        o.handle r)
