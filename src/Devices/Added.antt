-- ===== src/Devices/Added.antt =====
-- What `add_device_from_rom` (waterbox/machine.cpp) leaves.
use mathlib.Core.Option.{some-injective}
use chimera_core_eka2l.Prelude.{
  ℕ, ◌≡◌, ◌⊎◌, inl, inr, refl, sym, ap, ◌∙◌, Bool, true, false, Option, none, some, Bytes, is_empty,
  ◌==◌, Outcome, returns, throws, undefined, Bool-cases,
}
use chimera_core_eka2l.Memfs.Types.{FileSystem, memory_file_system}
use chimera_core_eka2l.Memfs.Resolve.{set_epoc_ver}
use chimera_core_eka2l.Memfs.Rpkg.{mount_rpkg}
use chimera_core_eka2l.Memfs.Reach.{mounts_rpkg, sets_version, Reach, here, next}
use chimera_core_eka2l.Devices.{
  Identity, Manager, Device, drive_z, identified, loaded, add_rom, identify, add_identified,
  add_mounted, add_image, added_rom, add_device_from_rom,
}

module _ {ℓ} {S : Type ℓ} (m : Manager S) (rom_path rpkg_path : Bytes) where
  -- The ROM alone names a device: it opens, it is a ROM, and it is one of that device.
  pub record RomNames (id : Identity) : Type 0 where
    pub image : Bytes
    pub opened : m.rom_image rom_path ≡ some image
    pub is_rom : m.load_rom image ≡ true
    pub names : m.determine_device_from_rom image ≡ some id

  -- The RPKG names a device: it is given and read, it mounts with a file at least, and the files on it
  -- are those of the device.
  pub record RpkgNames (id : Identity) (drives : FileSystem) : Type 0 where
    pub package' : Bytes
    pub files : ℕ
    pub given : is_empty rpkg_path ≡ false
    pub opened : m.rpkg_image rpkg_path ≡ some (some package')
    pub mounts :
        mount_rpkg m.platform (memory_file_system m.platform) drive_z package'
        ≡ returns (drives, some files)
    pub any : (files == 0) ≡ false
    pub names : identify m drives ≡ some id

  -- Whether the RPKG is needed decides which of them.
  abbrev pub Names : Bool → Identity → Type 0
  Names true id = (drives : FileSystem) × RpkgNames id drives
  Names false id = RomNames id

  -- A call that answers false: it says why, the RPKG's drive is what it was, and either the files name
  -- no device and the emulator is untouched, or it has refused the device that they name.
  pub record Failed (needed : Bool) (d d' : Device S) (error : Bytes) : Type ℓ where
    pub named : is_empty error ≡ false
    pub drive : d'.rpkg_drive ≡ d.rpkg_drive
    pub world :
        ((d'.world ≡ d.world) × ((id : Identity) → ¬ Names needed id))
        ⊎ ((id : Identity) × Names needed id
            × ((m.add_new_device id d.world).1 ≡ false)
            × (d'.world ≡ (m.add_new_device id d.world).0))

  -- A call that answers true: the emulator has taken the device that the files name. Without an RPKG
  -- its drive is what it was; with one it is the filesystem that the package mounts.
  pub record WithRom (d d' : Device S) : Type ℓ where
    pub id : Identity
    pub names : RomNames id
    pub taken : (m.add_new_device id d.world).1 ≡ true
    pub drive : d'.rpkg_drive ≡ d.rpkg_drive
    pub world : d'.world ≡ m.set_rom_path rom_path (m.add_new_device id d.world).0

  pub record WithRpkg (d d' : Device S) : Type ℓ where
    pub id : Identity
    pub mounted : FileSystem
    pub names : RpkgNames id mounted
    pub taken : (m.add_new_device id d.world).1 ≡ true
    pub drive : d'.rpkg_drive ≡ some (set_epoc_ver mounted id.ver)
    pub made : Reach m.platform (memory_file_system m.platform) (set_epoc_ver mounted id.ver)

  abbrev pub Result : Bool → Device S → Device S × Option Bytes → Type ℓ
  Result needed d (d', some error) = Failed needed d d' error
  Result true d (d', none) = WithRpkg d d'
  Result false d (d', none) = WithRom d d'

  -- A call that does not return: the RPKG is needed, and it is this package that does not mount.
  pub record Lost (needed : Bool) (o : Outcome (FileSystem × Option ℕ)) : Type 0 where
    pub package' : Bytes
    pub needs : needed ≡ true
    pub given : is_empty rpkg_path ≡ false
    pub opened : m.rpkg_image rpkg_path ≡ some (some package')
    pub lost : mount_rpkg m.platform (memory_file_system m.platform) drive_z package' ≡ o

  pub data Ended (needed : Bool) (d : Device S) (o : Outcome (Device S × Option Bytes))
      : Type ℓ where
    ended : (r : Device S × Option Bytes) → o ≡ returns r → Result needed d r → Ended needed d o
    threw : o ≡ throws → Lost needed throws → Ended needed d o
    left_undefined : o ≡ undefined → Lost needed undefined → Ended needed d o

  unnamed :
      (needed : Bool) (d : Device S) (error : Bytes)
      → is_empty error ≡ false
      → ((id : Identity) → ¬ Names needed id)
      → Failed needed d d error
  unnamed needed d error named no_device = record {
    named = named;
    drive = refl;
    world = inl (refl, no_device);
  }

  identified_lem :
      (image : Bytes) (id : Option Identity) (d : Device S)
      → m.rom_image rom_path ≡ some image
      → m.load_rom image ≡ true
      → m.determine_device_from_rom image ≡ id
      → Result false d (added_rom m d (identified m rom_path id d.world))
  identified_lem image none d o r e =
      unnamed false d _ refl (λ id n. let same = n.opened in let other = n.names in cc)
  identified_lem image (some id) d o r e =
      let names : RomNames id = record { image = image; opened = o; is_rom = r; names = e } in
      elim (Bool-cases (m.add_new_device id d.world).1) [
        | inl added ↦
            rw added (record { id = id; names = names; taken = added; drive = refl; world = refl })
        | inr refused ↦
            rw refused
              (record { named = refl; drive = refl; world = inr (id, names, refused, refl) })
      ]

  loaded_lem :
      (image : Option Bytes) (d : Device S)
      → m.rom_image rom_path ≡ image
      → Result false d (added_rom m d (loaded m rom_path image d.world))
  loaded_lem none d o = unnamed false d _ refl (λ id n. let same = n.opened in cc)
  loaded_lem (some image) d o = elim (Bool-cases (m.load_rom image)) [
    | inl rom ↦ rw rom (identified_lem image (m.determine_device_from_rom image) d o rom refl)
    | inr other ↦
        rw other (unnamed false d _ refl (λ id n. let same = n.opened in let is = n.is_rom in cc))
  ]

  module _ (given : is_empty rpkg_path ≡ false) (package' : Bytes)
      (opened : m.rpkg_image rpkg_path ≡ some (some package')) where
    -- What the package's mounting ends in, an RPKG that names a device has seen too.
    mounts_same :
        (o : Outcome (FileSystem × Option ℕ)) (id : Identity) (drives : FileSystem)
        → mount_rpkg m.platform (memory_file_system m.platform) drive_z package' ≡ o
        → (n : RpkgNames id drives) → o ≡ returns (drives, some n.files)
    mounts_same o id drives e n =
        let same = sym opened ∙ n.opened in
        let one : package' ≡ n.package' =
          some-injective package' n.package'
            (some-injective (some package') (some n.package') same) in
        sym e ∙ ap (mount_rpkg m.platform (memory_file_system m.platform) drive_z) one ∙ n.mounts

    add_identified_lem :
        (drives : FileSystem) (files : ℕ) (id : Option Identity) (d : Device S)
        → mount_rpkg m.platform (memory_file_system m.platform) drive_z package'
          ≡ returns (drives, some files)
        → (files == 0) ≡ false
        → identify m drives ≡ id
        → Result true d (add_identified m rom_path drives id d)
    add_identified_lem drives files none d e any i =
        unnamed true d _ refl
          (λ id (ds, n). let same = mounts_same _ id ds e n in let known = n.names in cc)
    add_identified_lem drives files (some id) d e any i =
        let names : RpkgNames id drives = record {
          package' = package';
          files = files;
          given = given;
          opened = opened;
          mounts = e;
          any = any;
          names = i;
        } in
        elim (Bool-cases (m.add_new_device id d.world).1) [
          | inl added ↦ rw added (record {
            id = id;
            mounted = drives;
            names = names;
            taken = added;
            drive = refl;
            made =
                next (next here (mounts_rpkg drive_z package' (some files) e))
                  (sets_version id.ver refl);
          })
          | inr refused ↦ rw refused (record {
            named = refl;
            drive = refl;
            world = inr (id, (drives, names), refused, refl);
          })
        ]

    add_mounted_lem :
        (o : Outcome (FileSystem × Option ℕ)) (d : Device S)
        → mount_rpkg m.platform (memory_file_system m.platform) drive_z package' ≡ o
        → Ended true d (add_mounted m rom_path o d)
    add_mounted_lem (returns (drives, none)) d e =
        ended _ refl
          (unnamed true d _ refl (λ id (ds, n). let same = mounts_same _ id ds e n in cc))
    add_mounted_lem (returns (drives, some files)) d e = elim (Bool-cases (files == 0)) [
      | inl empty ↦ rw empty (
          ended _ refl (
            unnamed true d _ refl
              (λ id (ds, n). let same = mounts_same _ id ds e n in let some' = n.any in cc)))
      | inr any ↦
          rw any (ended _ refl (add_identified_lem drives files (identify m drives) d e any refl))
    ]
    add_mounted_lem throws d e =
        threw refl
          record { package' = package'; needs = refl; given = given; opened = opened; lost = e }
    add_mounted_lem undefined d e =
        left_undefined refl
          record { package' = package'; needs = refl; given = given; opened = opened; lost = e }

  add_image_lem :
      (image : Option (Option Bytes)) (d : Device S)
      → is_empty rpkg_path ≡ false
      → m.rpkg_image rpkg_path ≡ image
      → Ended true d (add_image m rom_path image d)
  add_image_lem none d given e =
      ended _ refl (unnamed true d _ refl (λ id (drives, n). let same = n.opened in cc))
  add_image_lem (some none) d given e =
      ended _ refl (unnamed true d _ refl (λ id (drives, n). let same = n.opened in cc))
  add_image_lem (some (some package')) d given e =
      add_mounted_lem given package' e
        (mount_rpkg m.platform (memory_file_system m.platform) drive_z package') d refl

  pub add_device_from_rom-Ended :
      (d : Device S)
      → Ended
          (m.should_install_requires_additional_rpkg rom_path)
          d
          (add_device_from_rom m rom_path rpkg_path d)
  unfolding add_device_from_rom add_rom
  add_device_from_rom-Ended d =
      elim (Bool-cases (m.should_install_requires_additional_rpkg rom_path)) [
        | inl needed ↦ elim (Bool-cases (is_empty rpkg_path)) [
          | inl missing ↦
              rw (needed, missing)
                (ended _ refl (unnamed true d _ refl (λ id (drives, n). let there = n.given in cc)))
          | inr given ↦ rw (needed, given) (add_image_lem (m.rpkg_image rpkg_path) d given refl)
        ]
        | inr alone ↦ rw alone (ended _ refl (loaded_lem (m.rom_image rom_path) d refl))
      ]
