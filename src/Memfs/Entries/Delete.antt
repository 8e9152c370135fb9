-- ===== src/Memfs/Entries/Delete.antt =====
-- `delete_entry` of waterbox/memfs.cpp.
use mathlib.Core.Option
use chimera_core_eka2l.Prelude.{
  ◌≡◌, refl, ◌∙◌, Bool, true, false, ◌&&◌, Option, none, some, [], ◌∷◌, Bytes, eqb_refl, arith,
  Option-cases, Bool-cases, inl, inr,
}
use chimera_core_eka2l.Memfs.Path.{lowered}
use chimera_core_eka2l.Memfs.Node.{Node, node, is_dir, children, set_children, find, erase, look}
use chimera_core_eka2l.Memfs.Node.Map.{find-erase, find-erase_ne}
use chimera_core_eka2l.Memfs.Node.Tree.{IsTree}
use chimera_core_eka2l.Memfs.Node.Walk.{OnlyChild}
use chimera_core_eka2l.Memfs.Types.{Platform, FileSystem, Place, node_at, update}
use chimera_core_eka2l.Memfs.Types.Update.{Apart, node_at-update_below, node_at-update_child}
use chimera_core_eka2l.Memfs.Types.WellFormed.{IsWellFormed, node_at-IsTree}
use chimera_core_eka2l.Memfs.Resolve.{resolve, resolve_parent, child}
use chimera_core_eka2l.Memfs.Resolve.Laws.{resolve-of_parent, parent-node_at}
use chimera_core_eka2l.Memfs.Resolve.Parent.{place_of-parent, place_of-update, resolve_at}
use chimera_core_eka2l.Memfs.Entries.{has_children, delete_from, delete_entry}

-- What it means that the entry of the path is gone from `fs'`.
pub record Deleted (p : Platform) (fs fs' : FileSystem) (path : Bytes) (at : Place) (n : Node)
    : Type 0 where
  pub was : resolve p fs path ≡ some (at, n)
  pub empty : (is_dir n && has_children n) ≡ false
  pub gone : resolve p fs' path ≡ none
  pub rest : (other : Place) → Apart at other → node_at fs' other ≡ node_at fs other

abbrev without : Bytes → Node → Node
without k m = set_children (erase k (children m)) m

without-OnlyChild : (k : Bytes) → OnlyChild k (without k)
without-OnlyChild k (node a d c b f) j h = find-erase_ne j k c h

look-without : (k : Bytes) (m : Node) → IsTree m → look (without k m) (k ∷ []) ≡ none
unfolding look
look-without k (node a d c b f) t = ground (arith, find-erase k k c t.0, eqb_refl k)

module _ (p : Platform) (fs : FileSystem) (path leaf : Bytes) (at : Place) (parent : Node)
    (w : IsWellFormed fs) (h : resolve_parent p fs path ≡ some (at, parent, leaf)) where
  erased : FileSystem
  erased = update fs at (without (lowered leaf))

  resolve-erased : resolve p erased path ≡ none
  unfolding erased Option.bind
  resolve-erased =
      let place = place_of-parent p fs path leaf at parent h in
      let below =
        node_at-update_below fs at (without (lowered leaf)) (lowered leaf ∷ [])
          (omega (arith, place.1, w.all_roots)) in
      let there = parent-node_at p fs path leaf at parent h in
      let gone = look-without (lowered leaf) parent (node_at-IsTree at parent w there) in
      resolve_at p erased path (child at (lowered leaf)) (place_of-update p fs at _ path ∙ place.0)
      ∙ rw (below, there, gone)

  Deleted-erased :
      (n : Node)
      → find (lowered leaf) (children parent) ≡ some n
      → (is_dir n && has_children n) ≡ false
      → Deleted p fs erased path (child at (lowered leaf)) n
  unfolding erased
  Deleted-erased n found small = record {
    was = resolve-of_parent p fs path leaf at parent h ∙ rw found;
    empty = small;
    gone = resolve-erased;
    rest = λ other apart.
        node_at-update_child fs at other (lowered leaf) (without (lowered leaf))
          (omega (arith, (place_of-parent p fs path leaf at parent h).1, w.all_roots))
          (without-OnlyChild (lowered leaf)) apart;
  }

-- The two answers of `delete_entry`.
unfoldable pub Answer : Platform → FileSystem → Bytes → FileSystem × Bool → Type 0
Answer p fs path (fs', false) = fs' ≡ fs
Answer p fs path (fs', true) = (at : Place) × (n : Node) × Deleted p fs fs' path at n

Answer-false : (p : Platform) (fs : FileSystem) (path : Bytes) → Answer p fs path (fs, false)
unfolding Answer
Answer-false p fs path = refl

Answer-true :
    (p : Platform) (fs fs' : FileSystem) (path : Bytes) (at : Place) (n : Node)
    → Deleted p fs fs' path at n
    → Answer p fs path (fs', true)
unfolding Answer
Answer-true p fs fs' path at n d = (at, n, d)

delete_from-Answer :
    (p : Platform) (fs : FileSystem) (path : Bytes) (found : Option (Place × Node × Bytes))
    → IsWellFormed fs
    → resolve_parent p fs path ≡ found
    → Answer p fs path (delete_from fs found)
unfolding update erased
delete_from-Answer p fs path none w h = Answer-false p fs path
delete_from-Answer p fs path (some (at, parent, leaf)) w h =
    elim (Option-cases (find (lowered leaf) (children parent))) [
      | inl missing ↦ rw (missing, delete_from) (Answer-false p fs path)
      | inr (n, found) ↦ elim (Bool-cases (is_dir n && has_children n)) [
        | inl full ↦ rw (found, full, delete_from) (Answer-false p fs path)
        | inr small ↦
            rw (found, small, delete_from)
              (Answer-true p fs (erased p fs path leaf at parent w h) path (child at (lowered leaf))
                n (Deleted-erased p fs path leaf at parent w h n found small))
      ]
    ]

-- `delete_entry` answers false and changes nothing; or it answers true, and then the path led to an
-- entry that was no directory with children, it leads nowhere now, and every entry that does not
-- lie at or below it is as it was. (On a well-formed filesystem.)
pub delete_entry_lem :
    (p : Platform) (fs : FileSystem) (path : Bytes)
    → IsWellFormed fs
    → Answer p fs (p.ucs2_to_utf8 path) (delete_entry p fs path)
unfolding delete_entry
delete_entry_lem p fs path w =
    delete_from-Answer p fs (p.ucs2_to_utf8 path) (resolve_parent p fs (p.ucs2_to_utf8 path)) w refl
