-- ===== src/Memfs/Reach/Runs.antt =====
-- The invariant over every run of waterbox/memfs.cpp.
use chimera_core_eka2l.Prelude.{
  ℕ, ◌≡◌, refl, ◌∙◌, sym, subst, Bool, true, false, Option, none, some, Bytes, arith, Option-cases,
  inl, inr, length, Outcome, returns, throws, undefined,
}
use chimera_core_eka2l.Memfs.Path.{lowered}
use chimera_core_eka2l.Memfs.Node.{Node, node, children, bytes, set_bytes, find}
use chimera_core_eka2l.Memfs.Node.Tree.{IsTree, find-IsTree}
use chimera_core_eka2l.Memfs.Types.{
  Platform, FileSystem, memory_file_system, Place, root, node_at, update, rom,
}
use chimera_core_eka2l.Memfs.Types.WellFormed.{
  IsWellFormed, memory_file_system-IsWellFormed, root-IsTree, update-IsWellFormed, node_at-IsTree,
}
use chimera_core_eka2l.Memfs.Resolve.{mount_empty, set_epoc_ver, resolve_parent}
use chimera_core_eka2l.Memfs.Resolve.Laws.{parent-node_at}
use chimera_core_eka2l.Memfs.File.{File, write_file, resize}
use chimera_core_eka2l.Memfs.File.Io.{write, stored, resized_in, resize_file}
use chimera_core_eka2l.Memfs.Entries.{replace, replace_from, delete_entry, create_directory}
use chimera_core_eka2l.Memfs.Rpkg.{
  header, read_entries, mount_at, mount_from, mount_rpkg, rpkg_attributes,
}
use chimera_core_eka2l.Memfs.Reach.{
  Step, Reach, mounts, mounts_rpkg, unmounts, sets_version, opens, writes, resizes, replaces,
  deletes, creates, creates_all, here, next,
}
use chimera_core_eka2l.Memfs.Reach.WellFormed.{
  mount_empty-IsWellFormed, unmount-IsWellFormed, set_bytes-KeepsTree, open_file-IsWellFormed,
  move_entry-IsWellFormed, delete_from-IsWellFormed, create_under-IsWellFormed,
}
use chimera_core_eka2l.Memfs.Reach.Steps.{
  create_directories-IsWellFormed, read_entries-IsTree, mounted-IsWellFormed,
}

mount_at-IsWellFormed :
    (p : Platform) {t : FileSystem} (drv : ℕ) (image cursor : Bytes) (m : FileSystem × Bool)
    {files : Option ℕ}
    → IsWellFormed m.0
    → mount_at p drv image cursor m ≡ returns (t, files)
    → IsWellFormed t
mount_at-IsWellFormed p drv image cursor (fs, true) w h =
    mounted-IsWellFormed fs drv image (read_entries p (length cursor) cursor (root fs drv) 0) w
      (read_entries-IsTree p (length cursor) cursor (root fs drv) 0 (root-IsTree drv w)) h
mount_at-IsWellFormed p {t} drv image cursor (fs, false) w h =
    let same : fs ≡ t = ground arith in subst IsWellFormed same w

mount_from-IsWellFormed :
    (p : Platform) {fs t : FileSystem} (drv : ℕ) (image : Bytes) (cursor : Option Bytes)
    {files : Option ℕ}
    → IsWellFormed fs
    → mount_from p fs drv image cursor ≡ returns (t, files)
    → IsWellFormed t
mount_from-IsWellFormed p {fs} {t} drv image none w h =
    let same : fs ≡ t = ground arith in subst IsWellFormed same w
mount_from-IsWellFormed p {fs} drv image (some cursor) w h =
    mount_at-IsWellFormed p drv image cursor (mount_empty fs drv rom rpkg_attributes)
      (mount_empty-IsWellFormed drv rom rpkg_attributes w) h

child-IsTree :
    (parent n : Node) (leaf : Bytes)
    → IsTree parent
    → find (lowered leaf) (children parent) ≡ some n
    → IsTree n
child-IsTree (node a d c b f) n leaf tree found = (find-IsTree (lowered leaf) c n tree.1 found).0

replace-IsWellFormed :
    (p : Platform) {fs t : FileSystem} (old_path new_path : Bytes) {done : Bool}
    → IsWellFormed fs
    → replace p fs old_path new_path ≡ returns (t, done)
    → IsWellFormed t
unfolding replace
replace-IsWellFormed p {fs} {t} old_path new_path {done} w h =
    from (resolve_parent p fs (p.ucs2_to_utf8 old_path)) refl h
  where
    to : Bytes
    to = p.ucs2_to_utf8 new_path

    unchanged :
        ◌≡◌ {A = Outcome (FileSystem × Bool)} (returns (fs, false)) (returns (t, done))
        → IsWellFormed t
    unchanged e = let same : fs ≡ t = ground arith in subst IsWellFormed same w

    from :
        (o : Option (Place × Node × Bytes))
        → resolve_parent p fs (p.ucs2_to_utf8 old_path) ≡ o
        → replace_from p fs to o ≡ returns (t, done)
        → IsWellFormed t
    from none here' e = unchanged e
    from (some (at, parent, leaf)) here' e =
        elim (Option-cases (find (lowered leaf) (children parent))) [
          | inl missing ↦ unchanged (sym (rw (missing, replace_from)) ∙ e)
          | inr (n, found) ↦ elim (Option-cases (resolve_parent p fs to)) [
            | inl nowhere ↦ unchanged (sym (rw (found, nowhere, replace_from)) ∙ e)
            | inr (x, there) ↦
                move_entry-IsWellFormed fs at (lowered leaf) n x.0 x.2 w
                  (child-IsTree parent n leaf
                    (node_at-IsTree at parent w (parent-node_at p fs _ leaf at parent here')) found)
                  (sym (rw (found, there, replace_from)) ∙ e)
          ]
        ]

set_bytes-IsWellFormed :
    {fs : FileSystem} (at : Place) (v : Bytes)
    → IsWellFormed fs
    → IsWellFormed (update fs at (set_bytes v))
set_bytes-IsWellFormed {fs} at v w =
    update-IsWellFormed fs at (set_bytes v) (set_bytes-KeepsTree v) w

stored-IsWellFormed :
    {fs t : FileSystem} (f f' : File) {written : ℕ} (run : Outcome (Node × File × ℕ))
    → IsWellFormed fs
    → stored fs f run ≡ returns (t, f', written)
    → IsWellFormed t
stored-IsWellFormed {fs} {t} f f' (returns (n, g, k)) w h =
    let same : update fs f.node (set_bytes (bytes n)) ≡ t = ground arith in
    subst IsWellFormed same (set_bytes-IsWellFormed f.node (bytes n) w)
stored-IsWellFormed f f' throws w h = cc
stored-IsWellFormed f f' undefined w h = cc

write-IsWellFormed :
    {fs t : FileSystem} (f f' : File) (data' : Bytes) (size count written : ℕ)
    → IsWellFormed fs
    → write fs f data' size count ≡ returns (t, f', written)
    → IsWellFormed t
unfolding write
write-IsWellFormed {fs} {t} f f' data' size count written w h =
    elim (Option-cases (node_at fs f.node)) [
      | inl gone ↦ absurd (ground arith)
      | inr (n, there) ↦
          stored-IsWellFormed f f' (write_file n f data' size count) w (sym (rw (there, write)) ∙ h)
    ]

resized_in-IsWellFormed :
    {fs t : FileSystem} (f : File) {done : Bool} (run : Outcome (Node × Bool))
    → IsWellFormed fs
    → resized_in fs f run ≡ returns (t, done)
    → IsWellFormed t
resized_in-IsWellFormed {fs} {t} f (returns (n, k)) w h =
    let same : update fs f.node (set_bytes (bytes n)) ≡ t = ground arith in
    subst IsWellFormed same (set_bytes-IsWellFormed f.node (bytes n) w)
resized_in-IsWellFormed f throws w h = cc
resized_in-IsWellFormed f undefined w h = cc

resize_file-IsWellFormed :
    {fs t : FileSystem} (f : File) (new_size : ℕ) (done : Bool)
    → IsWellFormed fs
    → resize_file fs f new_size ≡ returns (t, done)
    → IsWellFormed t
unfolding resize_file
resize_file-IsWellFormed {fs} {t} f new_size done w h = elim (Option-cases (node_at fs f.node)) [
  | inl gone ↦ absurd (ground arith)
  | inr (n, there) ↦
      resized_in-IsWellFormed f (resize n new_size) w (sym (rw (there, resize_file)) ∙ h)
]

Step-IsWellFormed : (p : Platform) {s t : FileSystem} → IsWellFormed s → Step p s t → IsWellFormed t
unfolding delete_entry create_directory set_epoc_ver mount_rpkg
Step-IsWellFormed p w (mounts drv m a e) = subst IsWellFormed e (mount_empty-IsWellFormed drv m a w)
Step-IsWellFormed p w (mounts_rpkg drv image files e) =
    mount_from-IsWellFormed p drv image (header image) w e
Step-IsWellFormed p w (unmounts drv e) = subst IsWellFormed e (unmount-IsWellFormed drv w)
Step-IsWellFormed p w (sets_version ver e) =
    subst IsWellFormed e
      (record { all_roots = w.all_roots; all_mappings = w.all_mappings; trees = w.trees })
Step-IsWellFormed p w (opens path mode e) =
    subst IsWellFormed e (open_file-IsWellFormed p path mode w)
Step-IsWellFormed p w (writes f f' data' size count written e) =
    write-IsWellFormed f f' data' size count written w e
Step-IsWellFormed p w (resizes f new_size done e) = resize_file-IsWellFormed f new_size done w e
Step-IsWellFormed p w (replaces old_path new_path done e) =
    replace-IsWellFormed p old_path new_path w e
Step-IsWellFormed p {s = s} w (deletes path e) =
    subst IsWellFormed e (delete_from-IsWellFormed (resolve_parent p s (p.ucs2_to_utf8 path)) w)
Step-IsWellFormed p {s = s} w (creates path e) =
    subst IsWellFormed e (create_under-IsWellFormed (resolve_parent p s (p.ucs2_to_utf8 path)) w)
Step-IsWellFormed p w (creates_all path e) =
    subst IsWellFormed e (create_directories-IsWellFormed p path w)

-- Whatever operations run, in any order, failing or not, on a filesystem that the constructor made:
-- there are a root and a mapping for each of the 26 drives, at every level of every tree the
-- children are in strictly increasing order of their keys, and each stands under its own name in
-- lower case.
pub Reach-IsWellFormed :
    (p : Platform) {fs : FileSystem} → Reach p (memory_file_system p) fs → IsWellFormed fs
Reach-IsWellFormed p here = memory_file_system-IsWellFormed p
Reach-IsWellFormed p (next r st) = Step-IsWellFormed p (Reach-IsWellFormed p r) st
