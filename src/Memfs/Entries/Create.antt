-- ===== src/Memfs/Entries/Create.antt =====
-- `create_directory` and `open_file` of waterbox/memfs.cpp.
use mathlib.Core.Option
use chimera_core_eka2l.Prelude.{
  ℕ, ◌≡◌, refl, ◌∙◌, sym, subst, Bool, true, false, ◌||◌, none, some, [], ◌∷◌, Bytes, eqb_refl,
  arith,
}
use chimera_core_eka2l.Memfs.Path.{lowered, split_path}
use chimera_core_eka2l.Memfs.Node.{Node, node, is_dir, children, or_empty, find, look}
use chimera_core_eka2l.Memfs.Node.Map.{find-put}
use chimera_core_eka2l.Memfs.Types.{Platform, FileSystem, Mode, Place, update, mapping}
use chimera_core_eka2l.Memfs.Types.Update.{node_at-update_below}
use chimera_core_eka2l.Memfs.Types.WellFormed.{IsWellFormed}
use chimera_core_eka2l.Memfs.Resolve.{resolve, resolve_parent, child, drive_of}
use chimera_core_eka2l.Memfs.Resolve.Laws.{parent-node_at}
use chimera_core_eka2l.Memfs.Resolve.Parent.{place_of-parent, place_of-update, resolve_at}
use chimera_core_eka2l.Memfs.Entries.{
  edit_child, new_directory, create_under, create_directory, open_file, open_resolved, open_missing,
  open_node,
}

look-edit_child :
    (k : Bytes) (g : Node → Node) (m : Node)
    → look (edit_child k g m) (k ∷ []) ≡ some (g (or_empty (find k (children m))))
unfolding look
look-edit_child k g (node a d c b f) =
    ground (arith, find-put k k (g (or_empty (find k c))) c, eqb_refl k)

module _ (p : Platform) (fs : FileSystem) (path leaf : Bytes) (at : Place) (parent : Node)
    (w : IsWellFormed fs) (h : resolve_parent p fs path ≡ some (at, parent, leaf)) where
  with_directory : FileSystem
  with_directory = update fs at (edit_child (lowered leaf) (new_directory leaf))

  made : Node
  made = new_directory leaf (or_empty (find (lowered leaf) (children parent)))

  resolve-with_directory : resolve p with_directory path ≡ some (child at (lowered leaf), made)
  unfolding with_directory made Option.bind
  resolve-with_directory =
      let place = place_of-parent p fs path leaf at parent h in
      let below =
        node_at-update_below fs at (edit_child (lowered leaf) (new_directory leaf))
          (lowered leaf ∷ []) (omega (arith, place.1, w.all_roots)) in
      let there = parent-node_at p fs path leaf at parent h in
      let new = look-edit_child (lowered leaf) (new_directory leaf) parent in
      resolve_at p with_directory path (child at (lowered leaf))
        (place_of-update p fs at _ path ∙ place.0)
      ∙ rw (below, there, new) refl

-- What `create_directory` answers and leaves.
pub record Created (p : Platform) (path : Bytes) (at : Place) (leaf : Bytes) (r : FileSystem × Bool)
    : Type 0 where
  pub answer : r.1 ≡ true
  pub entry : Node
  pub found : resolve p r.0 path ≡ some (child at (lowered leaf), entry)
  pub directory : is_dir entry ≡ true

is_dir-new_directory : (leaf : Bytes) (n : Node) → is_dir (new_directory leaf n) ≡ true
is_dir-new_directory leaf (node a d c b f) = refl

create_under-Created :
    (p : Platform) (fs : FileSystem) (path leaf : Bytes) (at : Place) (parent : Node)
    → IsWellFormed fs
    → resolve_parent p fs path ≡ some (at, parent, leaf)
    → Created p path at leaf (create_under fs (some (at, parent, leaf)))
unfolding with_directory made
create_under-Created p fs path leaf at parent w h = record {
  answer = refl;
  entry = made p fs path leaf at parent w h;
  found = resolve-with_directory p fs path leaf at parent w h;
  directory = is_dir-new_directory leaf (or_empty (find (lowered leaf) (children parent)));
}

-- On a well-formed filesystem, where the path has a parent `create_directory` answers true, and the
-- path leads to a directory afterwards.
create_directory-Created :
    (p : Platform) (fs : FileSystem) (path leaf : Bytes) (at : Place) (parent : Node)
    → IsWellFormed fs
    → resolve_parent p fs (p.ucs2_to_utf8 path) ≡ some (at, parent, leaf)
    → Created p (p.ucs2_to_utf8 path) at leaf (create_directory p fs path)
unfolding create_directory
create_directory-Created p fs path leaf at parent w h =
    subst (λ o. Created p (p.ucs2_to_utf8 path) at leaf (create_under fs o)) (sym h)
      (create_under-Created p fs (p.ucs2_to_utf8 path) leaf at parent w h)

-- `open_file` without `WRITE_MODE` leaves the filesystem as it is, whatever it answers.
open_file_reads :
    (p : Platform) (fs : FileSystem) (path : Bytes) (mode : Mode)
    → mode.write ≡ false
    → (open_file p fs path mode).0 ≡ fs
unfolding open_file open_resolved open_missing open_node
open_file_reads p fs path mode h = ground (arith, h)

-- With `WRITE_MODE` or `APPEND_MODE`, `open_file` of a path on a mounted drive that is
-- write-protected opens nothing and changes nothing.
open_file_protected :
    (p : Platform) (fs : FileSystem) (path : Bytes) (mode : Mode) (drv : ℕ)
    → drive_of fs (split_path (p.ucs2_to_utf8 path)).drive_letter ≡ some drv
    → (mapping fs drv).drive.attribute.write_protected ≡ true
    → (mode.write || mode.append) ≡ true
    → open_file p fs path mode ≡ (fs, none)
unfolding open_file
open_file_protected p fs path mode drv h k l = ground (arith, h, k, l)
