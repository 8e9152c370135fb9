-- ===== src/Devices.antt =====
-- The machine's device: `add_device_from_rom`, `set_device`, `boot` and `mount_host_drives` of
-- waterbox/machine.cpp. The ROM loader, the device manager and the rest of EKA2L1 are parameters, and
-- so are the host's files.
pub mod Languages
pub mod Added
use chimera_core_eka2l.Prelude.{
  ℕ, ◌%◌, Bool, true, false, not, Option, none, some, List, [], ◌∷◌, ◌++◌, Bytes, codes, is_empty,
  ◌==◌, if◌then◌else◌, Outcome, returns, throws, undefined,
}
use chimera_core_eka2l.Audio.{ℤ}
use chimera_core_eka2l.Memfs.Types.{
  Platform, FileSystem, Media, physical, rom, Attributes, attrib_none, memory_file_system,
}
use chimera_core_eka2l.Memfs.Resolve.{set_epoc_ver}
use chimera_core_eka2l.Memfs.Entries.{read_whole, list_names}
use chimera_core_eka2l.Memfs.Rpkg.{mount_rpkg}
use chimera_core_eka2l.Devices.Languages.{Text, listed_languages}

-- What identifies a device.
pub record Identity : Type 0 where
  pub manufacturer : Bytes
  pub firmcode : Bytes
  pub model : Bytes
  pub ver : ℕ

-- What is asked of EKA2L1 and of the host. `rom_image` and `rpkg_image` are the files, none where one
-- does not open; `rpkg_image` has none inside where it is not read whole. `add_new_device` says
-- whether it answered `add_device_none`.
pub record Manager {ℓ} (S : Type ℓ) : Type ℓ where
  pub platform : Platform
  pub text : Text
  pub rom_image : Bytes → Option Bytes
  pub rpkg_image : Bytes → Option (Option Bytes)
  pub load_rom : Bytes → Bool
  pub should_install_requires_additional_rpkg : Bytes → Bool
  pub determine_device_from_rom : Bytes → Option Identity
  pub determine_device_from_drive_files :
      (Bytes → Option Bytes) → (Bytes → List Bytes) → Option Identity
  pub add_new_device : Identity → S → S × Bool
  pub set_languages : Bytes → List ℤ → ℤ → S → S
  pub set_rom_path : Bytes → S → S
  pub set_device : ℕ → S → S × Bool
  pub add_filesystem : FileSystem → S → S
  pub mount : ℕ → Media → Bytes → Attributes → S → S
  pub set_patch_file_provider : S → S
  pub initialize_user_parties : S → S
  pub load_registries : S → S
  pub migrate_legacy_registries : S → S

-- The machine's part of it: `rpkg_drive_`, and the emulator's state.
pub record Device {ℓ} (S : Type ℓ) : Type ℓ where
  pub world : S
  pub rpkg_drive : Option FileSystem

abbrev pub drive_z : ℕ
drive_z = 25

module _ {ℓ} {S : Type ℓ} (m : Manager S) where
  abbrev pub identified : Bytes → Option Identity → S → S × Bool
  identified rom_path none s = (s, false)
  identified rom_path (some id) s =
      let r = m.add_new_device id s in
      if not r.1 then (r.0, false) else (m.set_rom_path rom_path r.0, true)

  abbrev pub loaded : Bytes → Option Bytes → S → S × Bool
  loaded rom_path none s = (s, false)
  loaded rom_path (some image) s =
      if m.load_rom image
      then identified rom_path (m.determine_device_from_rom image) s
      else (s, false)

  -- The first overload: the ROM alone.
  unfoldable pub add_rom : Bytes → S → S × Bool
  add_rom rom_path s = loaded rom_path (m.rom_image rom_path) s

  -- The paths of drive Z in the RPKG.
  abbrev pub z_path : Bytes → Bytes
  z_path relative = codes "z:\\" ++ relative

  abbrev pub identify : FileSystem → Option Identity
  identify drives =
      m.determine_device_from_drive_files
        (λ relative. read_whole m.platform drives (z_path relative))
        (λ relative. list_names m.platform drives (z_path relative))

  -- The phone's languages, where the drive lists some.
  abbrev pub with_languages : Bytes → Option (List ℤ × ℤ) → S → S
  with_languages firmcode none s = s
  with_languages firmcode (some (languages, default')) s =
      m.set_languages firmcode languages default' s

  abbrev pub languages_of : FileSystem → Option (List ℤ × ℤ)
  languages_of drives =
      listed_languages m.text
        (read_whole m.platform drives (z_path (codes "resource\\bootdata\\languages.txt")))

  -- From the device that the drive's files name, or none; the error where the call answers false.
  abbrev pub add_identified :
      Bytes → FileSystem → Option Identity → Device S → Device S × Option Bytes
  add_identified rom_path drives none d = (d, some (codes "error.rpkg_no_device"))
  add_identified rom_path drives (some id) d =
      let r = m.add_new_device id d.world in
      if not r.1 then (record d { world = r.0 }, some (codes "error.device_refused")) else (
        record {
          world = m.set_rom_path rom_path (with_languages id.firmcode (languages_of drives) r.0);
          rpkg_drive = some (set_epoc_ver drives id.ver);
        },
        none,
      )

  -- From the drives, with the number of files that were mounted.
  abbrev pub add_mounted :
      Bytes → Outcome (FileSystem × Option ℕ) → Device S → Outcome (Device S × Option Bytes)
  add_mounted rom_path (returns (drives, none)) d = returns (d, some (codes "error.rpkg_empty"))
  add_mounted rom_path (returns (drives, some files)) d = returns (
      if files == 0
      then (d, some (codes "error.rpkg_empty"))
      else add_identified rom_path drives (identify drives) d)
  add_mounted rom_path throws d = throws
  add_mounted rom_path undefined d = undefined

  abbrev pub add_image :
      Bytes → Option (Option Bytes) → Device S → Outcome (Device S × Option Bytes)
  add_image rom_path none d = returns (d, some (codes "error.rpkg_not_opened"))
  add_image rom_path (some none) d = returns (d, some (codes "error.rpkg_not_read"))
  add_image rom_path (some (some package')) d =
      add_mounted rom_path (mount_rpkg m.platform (memory_file_system m.platform) drive_z package')
        d

  abbrev pub added_rom : Device S → S × Bool → Device S × Option Bytes
  added_rom d (s, ok) =
      (record d { world = s }, if ok then none else some (codes "error.rom_no_device"))

  unfoldable pub add_device_from_rom : Bytes → Bytes → Device S → Outcome (Device S × Option Bytes)
  add_device_from_rom rom_path rpkg_path d =
      if not (m.should_install_requires_additional_rpkg rom_path)
      then returns (added_rom d (add_rom rom_path d.world))
      else if is_empty rpkg_path
      then returns (d, some (codes "error.needs_rpkg"))
      else add_image rom_path (m.rpkg_image rpkg_path) d

  abbrev pub with_rpkg : Option FileSystem → S → S
  with_rpkg none s = s
  with_rpkg (some drives) s = m.add_filesystem drives s

  -- The index is cast to a byte.
  unfoldable pub set_device : ℕ → Device S → Device S × Bool
  set_device index d =
      let r = m.set_device (index % 256) d.world in
      if not r.1
      then (record d { world = r.0 }, false)
      else (record d { world = with_rpkg d.rpkg_drive r.0 }, true)

  abbrev pub mount_z : Bytes → S → S
  mount_z storage =
      m.mount drive_z rom (m.platform.add_path storage (codes "/drives/z/"))
        (record attrib_none { internal = true; write_protected = true })

  unfoldable pub mount_host_drives : Bytes → S → S
  mount_host_drives storage s =
      let at = m.platform.add_path storage in
      let internal' = record attrib_none { internal = true } in
      let c = m.mount 2 physical (at (codes "/drives/c/")) internal' s in
      let d = m.mount 3 physical (at (codes "/drives/d/")) internal' c in
      mount_z storage
        (m.mount 4 physical (at (codes "/drives/e/")) (record attrib_none { removeable = true }) d)

  unfoldable pub boot : Bool → Bytes → S → S
  boot in_memory_drives storage s =
      let mounted = if in_memory_drives then mount_z storage s else mount_host_drives storage s in
      m.migrate_legacy_registries
        (m.load_registries (m.initialize_user_parties (m.set_patch_file_provider mounted)))
