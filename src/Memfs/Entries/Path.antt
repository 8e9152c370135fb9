-- ===== src/Memfs/Entries/Path.antt =====
-- `create_directories` of waterbox/memfs.cpp.
use native.Mathlib.Decide.{ℕ_discrete}
use chimera_core_eka2l.Prelude.{
  ℕ, ◌<◌, ◌≡◌, refl, ◌∙◌, sym, ap, subst, Bool, true, some, List, [], ◌∷◌, map, Bytes, ◌⊎◌,
  eqb_refl, arith, inl, inr, set,
}
use chimera_core_eka2l.Memfs.Path.{lowered, split_path}
use chimera_core_eka2l.Memfs.Node.{
  Node, node, is_dir, children, content, or_empty, find, put, look, walk,
}
use chimera_core_eka2l.Memfs.Node.Map.{find-put}
use chimera_core_eka2l.Memfs.Types.{Platform, FileSystem, Place, root, node_at}
use chimera_core_eka2l.Memfs.Types.Update.{get_or-set_self, get_or-set_ne}
use chimera_core_eka2l.Memfs.Types.WellFormed.{IsWellFormed}
use chimera_core_eka2l.Memfs.Resolve.{resolve, drive_of, looked_up, descend}
use chimera_core_eka2l.Memfs.Resolve.Parent.{drive_of-lt}
use chimera_core_eka2l.Memfs.Entries.Kept.{OnWay, KeptAs, make_path-Kept}
use chimera_core_eka2l.Memfs.Entries.{path_directory, make_path, create_directories}

path_directory-is_dir : (part : Bytes) (n : Node) → is_dir (path_directory part n) ≡ true
path_directory-is_dir part (node s a c b f) = ground arith

walk-cons :
    (n : Node) (part : Bytes) (parts : List Bytes) (x : Node)
    → find (lowered part) (children n) ≡ some x
    → walk n (part ∷ parts) ≡ walk x parts
unfolding walk
walk-cons n part parts x h = ground (arith, h)

-- The path leads to a directory afterwards.
make_path-walk :
    (n : Node) (parts : List Bytes)
    → is_dir n ≡ true
    → (m : Node) × (walk (make_path n parts) parts ≡ some m) × (is_dir m ≡ true)
unfolding make_path walk
make_path-walk n [] dir = (n, refl, dir)
make_path-walk (node s a c b f) (part ∷ parts) dir =
    let child = path_directory part (or_empty (find (lowered part) c)) in
    let (m, there, plain) =
      make_path-walk child parts (path_directory-is_dir part (or_empty (find (lowered part) c))) in
    (
      m,
      walk-cons (node s a (put (lowered part) (make_path child parts) c) b f) part parts
            (make_path child parts)
            (find-put (lowered part) (lowered part) (make_path child parts) c
              ∙ rw (eqb_refl (lowered part)) refl)
          ∙ there,
      plain,
    )

descend-found :
    (fs : FileSystem) (letter drv : ℕ) (parts : List Bytes) (m : Node)
    → drive_of fs letter ≡ some drv
    → walk (root fs drv) parts ≡ some m
    → descend fs letter parts ≡ some (record { drive = drv; keys = map lowered parts }, m)
unfolding descend
descend-found fs letter drv parts m h k = ground (arith, h, k)

-- An entry of the filesystem with the same content, that is a directory just where it was one, or has
-- become one on the way to the place `at`.
abbrev pub KeptAt : Place → Place → Node → Node → Type 0
KeptAt at other m m' =
    (content m' ≡ content m)
    × ((is_dir m' ≡ is_dir m)
        ⊎ ((at.drive ≡ other.drive) × OnWay other.keys at.keys × (is_dir m' ≡ true)))

-- What `create_directories` answers and leaves of the filesystem before.
pub record Made (p : Platform) (fs : FileSystem) (path : Bytes) (r : FileSystem × Bool)
    : Type 0 where
  pub answer : r.1 ≡ true
  pub at : Place
  pub entry : Node
  pub found : resolve p r.0 path ≡ some (at, entry)
  pub directory : is_dir entry ≡ true
  pub kept :
      (other : Place) (m : Node)
      → node_at fs other ≡ some m
      → (m' : Node) × (node_at r.0 other ≡ some m') × KeptAt at other m m'

module _ (p : Platform) (fs : FileSystem) (path : Bytes) (drv : ℕ) (w : IsWellFormed fs)
    (same : looked_up p fs path ≡ path) (good : (split_path path).ok ≡ true)
    (mounted : drive_of fs (split_path path).drive_letter ≡ some drv)
    (plain : is_dir (root fs drv) ≡ true) where
  with_path : FileSystem
  with_path = record fs {
    roots = set fs.roots drv (make_path (root fs drv) (split_path path).parts);
  }

  new_root : root with_path drv ≡ make_path (root fs drv) (split_path path).parts
  unfolding with_path
  new_root =
      get_or-set_self fs.roots drv _ _
        (subst (λ n. drv < n) (sym w.all_roots) (drive_of-lt fs _ drv mounted))

  looked_up-with_path : looked_up p with_path path ≡ path
  unfolding looked_up with_path
  looked_up-with_path = same

  drive_of-with_path : drive_of with_path (split_path path).drive_letter ≡ some drv
  unfolding drive_of with_path
  drive_of-with_path = mounted

  abbrev path_place : Place
  path_place = record { drive = drv; keys = map lowered (split_path path).parts }

  at_place :
      (other : Place) (m m' : Node)
      → drv ≡ other.drive
      → KeptAs (map lowered (split_path path).parts) other.keys m m'
      → KeptAt path_place other m m'
  at_place other m m' e (c, inl d) = (c, inl d)
  at_place other m m' e (c, inr (on, d)) = (c, inr (e, on, d))

  with_path-Kept :
      (other : Place) (m : Node)
      → node_at fs other ≡ some m
      → (m' : Node) × (node_at with_path other ≡ some m') × KeptAt path_place other m m'
  unfolding node_at with_path
  with_path-Kept other m h = elim (ℕ_discrete drv other.drive) [
    | yes e ↦
        let (m', there, c) =
          make_path-Kept (root fs drv) (split_path path).parts other.keys m
            (ap (λ i. look (root fs i) other.keys) e ∙ h) in
        (
          m',
          ap (λ i. look (root with_path i) other.keys) (sym e)
              ∙ ap (λ r. look r other.keys) new_root
              ∙ there,
          at_place other m m' e c,
        )
    | no ne ↦ (
      m,
      ap (λ r. look r other.keys) (get_or-set_ne fs.roots drv other.drive _ _ ne) ∙ h,
      (refl, inl refl),
    )
  ]

  with_path-Made : Made p fs path (with_path, true)
  unfolding resolve
  with_path-Made =
      let (m, there, directory) = make_path-walk (root fs drv) (split_path path).parts plain in
      record {
        answer = refl;
        at = path_place;
        entry = m;
        found =
            rw (looked_up-with_path, good)
              (descend-found with_path _ drv (split_path path).parts m drive_of-with_path
                (ap (λ r. walk r (split_path path).parts) new_root ∙ there));
        directory = directory;
        kept = with_path-Kept;
      }

-- On a well-formed filesystem, for a path that splits, that no rewriting changes and whose drive is
-- mounted with a directory for its root, `create_directories` answers true and the path leads to a
-- directory afterwards. Every entry that was there is at its place with its bytes, and is a directory
-- just where it was one; but one that the path goes through is a directory now, also if it was a file.
pub create_directories-Made :
    (p : Platform) (fs : FileSystem) (path : Bytes) (drv : ℕ)
    → IsWellFormed fs
    → looked_up p fs (p.ucs2_to_utf8 path) ≡ p.ucs2_to_utf8 path
    → (split_path (p.ucs2_to_utf8 path)).ok ≡ true
    → drive_of fs (split_path (p.ucs2_to_utf8 path)).drive_letter ≡ some drv
    → is_dir (root fs drv) ≡ true
    → Made p fs (p.ucs2_to_utf8 path) (create_directories p fs path)
unfolding create_directories with_path
create_directories-Made p fs path drv w same good mounted plain =
    rw (good, mounted) (with_path-Made p fs (p.ucs2_to_utf8 path) drv w same good mounted plain)
