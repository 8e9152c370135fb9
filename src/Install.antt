-- ===== src/Install.antt =====
-- The installers of waterbox/machine.cpp: `put_file`, `install_ngage` and `install_package`. The card
-- and the .blz unpacker are the children's. The emulator's `io_system`, its package installer and the
-- host's files are parameters.
pub mod Card
pub mod Blz
pub mod Files
use chimera_core_eka2l.Prelude.{
  ℕ, ◌%◌, ◌^◌, Bool, true, false, not, ◌&&◌, ◌||◌, Option, none, some, List, [], ◌∷◌, ◌++◌, Bytes,
  codes, ◌==◌, if◌then◌else◌, length,
}

-- What is asked of EKA2L1. `S` is the state that its calls change and `F` an open file. Files are
-- opened with `WRITE_MODE | BIN_MODE`; `install_package` is that of `system` for drive C, 0 where it
-- installed.
pub record Emulator {ℓ} (S F : Type ℓ) : Type ℓ where
  pub utf8_to_ucs2 : Bytes → Bytes
  pub file_directory : Bytes → Bytes
  pub create_directories : Bytes → S → S
  pub open_file : Bytes → S → S × Option F
  pub write_file : F → Bytes → ℕ → ℕ → S → S × ℕ
  pub close : F → S → S
  pub announce_drive : ℕ → S → S
  pub install_package : Bytes → S → S × ℕ

abbrev pub drive_c : ℕ
drive_c = 2

abbrev pub drive_e : ℕ
drive_e = 4

abbrev pub u32 : ℕ
u32 = 2 ^ 32

-- `find_last_of("/\\")` and `substr`: what stands behind the last separator. The accumulator holds
-- what came since the last one.
unfoldable pub leaf_of : Bytes → Bytes → Bytes
leaf_of since [] = since
leaf_of since (c ∷ path) = leaf_of (if c == b'/' || c == b'\\' then [] else since ++ c ∷ []) path

-- The host's files: the whole of one, none where it does not open.
abbrev pub HostFiles : Type 0
HostFiles = Bytes → Option Bytes

module _ {ℓ} {S F : Type ℓ} (e : Emulator S F) where
  -- `put_file` from where the target is open, or is not.
  abbrev pub put_bytes : Bytes → S × Option F → S × Bool
  put_bytes bytes (s, none) = (s, false)
  put_bytes bytes (s, some f) =
      let r = e.write_file f bytes (length bytes % u32) 1 s in (e.close f r.0, r.1 == length bytes)

  unfoldable pub put_file : HostFiles → Bytes → Bytes → S → S × Bool
  put_file host machine_path host_path s = elim (host host_path) [
    | none ↦ (s, false)
    | some bytes ↦ put_bytes bytes (e.open_file (e.utf8_to_ucs2 machine_path) s)
  ]

  -- The loop over the packages stops at the first that is refused.
  unfoldable pub install_all : List Bytes → S → S × Bool
  install_all [] s = (s, true)
  install_all (package' ∷ packages) s =
      let r = e.install_package package' s in
      let rest = install_all packages r.0 in if r.1 == 0 then rest else (r.0, false)

  abbrev pub ngage_games_uid : ℕ
  ngage_games_uid = 536902457

  -- 0 for a refusal.
  unfoldable pub install_ngage : HostFiles → Bytes → List Bytes → S → S × ℕ
  install_ngage host game_path launcher_paths s =
      let made = e.create_directories (e.utf8_to_ucs2 (codes "E:\\n-gage\\")) s in
      let put = put_file host (codes "E:\\n-gage\\" ++ leaf_of [] game_path) game_path made in
      let installed = install_all launcher_paths put.0 in
      if not put.1
      then (put.0, 0)
      else if not installed.1
      then (installed.0, 0)
      else (e.announce_drive drive_e (e.announce_drive drive_c installed.0), ngage_games_uid)
