-- ===== src/Memfs/Types/WellFormed.antt =====
-- The invariant of `memory_file_system` (waterbox/memfs.h): a root and a mapping for every drive,
-- and trees in order.
use chimera_core_eka2l.Prelude.{
  ℕ, zero, suc, ◌≡◌, refl, ◌∙◌, true, none, some, List, [], ◌∷◌, length, length-set, get_or, set,
  All, replicate,
}
use chimera_core_eka2l.Memfs.Node.{Node, node, nil, modify}
use chimera_core_eka2l.Memfs.Node.Tree.{IsTree, KeepsTree, modify-IsTree, look-IsTree}
use chimera_core_eka2l.Memfs.Types.{
  Platform, FileSystem, memory_file_system, Place, root, node_at, update, drives,
}

pub record IsWellFormed (fs : FileSystem) : Type 0 where
  pub all_roots : length fs.roots ≡ drives
  pub all_mappings : length fs.mappings ≡ drives
  pub trees : All IsTree fs.roots

All-get_or {ℓ κ} :
    {A : Type ℓ} (P : A → Type κ) (xs : List A) (i : ℕ) (d : A) → All P xs → P d → P (get_or xs i d)
All-get_or P [] i d h hd = hd
All-get_or P (x ∷ xs) zero d h hd = h.0
All-get_or P (x ∷ xs) (suc i) d h hd = All-get_or P xs i d h.1 hd

pub All-set {ℓ κ} :
    {A : Type ℓ} (P : A → Type κ) (xs : List A) (i : ℕ) (v : A)
    → All P xs
    → P v
    → All P (set xs i v)
All-set P [] i v h hv = h
All-set P (x ∷ xs) zero v h hv = (hv, h.1)
All-set P (x ∷ xs) (suc i) v h hv = (h.0, All-set P xs i v h.1 hv)

pub root-IsTree : {fs : FileSystem} (drv : ℕ) → IsWellFormed fs → IsTree (root fs drv)
root-IsTree {fs} drv w = All-get_or IsTree fs.roots drv _ w.trees (tt, tt)

pub node_at-IsTree :
    {fs : FileSystem} (at : Place) (n : Node) → IsWellFormed fs → node_at fs at ≡ some n → IsTree n
unfolding node_at
node_at-IsTree {fs} at n w h = look-IsTree (root fs at.drive) n at.keys (root-IsTree at.drive w) h

pub set_root-IsWellFormed :
    (fs : FileSystem) (drv : ℕ) (n : Node)
    → IsWellFormed fs
    → IsTree n
    → IsWellFormed (record fs { roots = set fs.roots drv n })
set_root-IsWellFormed fs drv n w t = record {
  all_roots = length-set fs.roots drv n ∙ w.all_roots;
  all_mappings = w.all_mappings;
  trees = All-set IsTree fs.roots drv n w.trees t;
}

pub update-IsWellFormed :
    (fs : FileSystem) (at : Place) (g : Node → Node)
    → KeepsTree g
    → IsWellFormed fs
    → IsWellFormed (update fs at g)
unfolding update
update-IsWellFormed fs at g keep w =
    set_root-IsWellFormed fs at.drive (modify g (root fs at.drive) at.keys) w
      (modify-IsTree g keep (root fs at.drive) at.keys (root-IsTree at.drive w))

All-replicate {ℓ κ} : {A : Type ℓ} (P : A → Type κ) (n : ℕ) (v : A) → P v → All P (replicate n v)
All-replicate P zero v h = tt
All-replicate P (suc n) v h = (h, All-replicate P n v h)

pub memory_file_system-IsWellFormed : (p : Platform) → IsWellFormed (memory_file_system p)
unfolding memory_file_system
memory_file_system-IsWellFormed p = record {
  all_roots = refl;
  all_mappings = refl;
  trees = All-replicate IsTree drives (node [] true nil [] none) (tt, tt);
}
