-- ===== src/Memfs/Reach.antt =====
-- The states that a `memory_file_system` of waterbox/memfs.cpp can be in: every operation that
-- changes one is a step.
pub mod WellFormed
pub mod Steps
pub mod Runs
use chimera_core_eka2l.Prelude.{ℕ, ◌≡◌, Bool, Option, Bytes, Outcome, returns}
use chimera_core_eka2l.Memfs.Types.{Platform, FileSystem, Attributes, Media, Mode}
use chimera_core_eka2l.Memfs.Resolve.{mount_empty, unmount, set_epoc_ver}
use chimera_core_eka2l.Memfs.File.{File}
use chimera_core_eka2l.Memfs.File.Io.{write, resize_file}
use chimera_core_eka2l.Memfs.Entries.{
  open_file, replace, delete_entry, create_directory, create_directories,
}
use chimera_core_eka2l.Memfs.Rpkg.{mount_rpkg}

-- `s` becomes `t`. Open files may hold any pointer.
pub data Step (p : Platform) (s t : FileSystem) : Type 0 where
  mounts : (drv : ℕ) (m : Media) (a : Attributes) → (mount_empty s drv m a).0 ≡ t → Step p s t
  mounts_rpkg :
      (drv : ℕ) (image : Bytes) (files : Option ℕ)
      → mount_rpkg p s drv image ≡ returns (t, files)
      → Step p s t
  unmounts : (drv : ℕ) → (unmount s drv).0 ≡ t → Step p s t
  sets_version : (ver : ℕ) → set_epoc_ver s ver ≡ t → Step p s t
  opens : (path : Bytes) (mode : Mode) → (open_file p s path mode).0 ≡ t → Step p s t
  writes :
      (f f' : File) (data' : Bytes) (size count written : ℕ)
      → write s f data' size count ≡ returns (t, f', written)
      → Step p s t
  resizes :
      (f : File) (new_size : ℕ) (done : Bool)
      → resize_file s f new_size ≡ returns (t, done)
      → Step p s t
  replaces :
      (old_path new_path : Bytes) (done : Bool)
      → replace p s old_path new_path ≡ returns (t, done)
      → Step p s t
  deletes : (path : Bytes) → (delete_entry p s path).0 ≡ t → Step p s t
  creates : (path : Bytes) → (create_directory p s path).0 ≡ t → Step p s t
  creates_all : (path : Bytes) → (create_directories p s path).0 ≡ t → Step p s t

pub data Reach (p : Platform) (s : FileSystem) : FileSystem → Type 0 where
  here : Reach p s s
  next : {t u : FileSystem} → Reach p s t → Step p t u → Reach p s u
