-- ===== src/Provision.antt =====
-- waterbox/install-device.cpp: the tool that makes a device of a ROM dump: its arguments, and how it
-- ends. EKA2L1's installer and device manager are parameters; what is printed is left aside, but the
-- text of the result.
use chimera_core_eka2l.Prelude.{
  ℕ, Option, none, some, List, [], ◌∷◌, Bytes, codes, eqb, is_empty, if◌then◌else◌,
}

-- `device_installation_error`, the enumerators that `error_text` names and any other.
pub data InstallError : Type 0 where
  error_none not_exist insufficent rpkg_corrupt determine_product_failure : InstallError
  already_exist general_failure rom_fail_to_copy vpl_file_invalid rofs_corrupt : InstallError
  rom_file_corrupt fpsx_corrupt rpkg_missing archive_corrupt archive_no_device : InstallError
  other_error : InstallError

unfoldable pub error_text : InstallError → Bytes
error_text error_none = codes "ok"
error_text not_exist = codes "the file does not exist"
error_text insufficent = codes "not enough space"
error_text rpkg_corrupt = codes "the RPKG is corrupt"
error_text determine_product_failure = codes "the product could not be determined from the dump"
error_text already_exist = codes "the device is already installed"
error_text general_failure = codes "general failure"
error_text rom_fail_to_copy = codes "the ROM could not be copied"
error_text vpl_file_invalid = codes "the VPL file is invalid"
error_text rofs_corrupt = codes "the ROFS is corrupt"
error_text rom_file_corrupt = codes "the ROM file is corrupt"
error_text fpsx_corrupt = codes "the FPSX is corrupt"
error_text rpkg_missing =
    codes "this ROM keeps drive Z in ROFS and needs the RPKG dump alongside it"
error_text archive_corrupt = codes "the archive could not be read"
error_text archive_no_device = codes "the archive holds no device dump"
error_text other_error = codes "unknown"

pub record Arguments : Type 0 where
  pub storage : Bytes
  pub rom : Bytes
  pub rpkg : Bytes

abbrev pub no_arguments : Arguments
no_arguments = record { storage = codes "data"; rom = []; rpkg = [] }

-- Which of the three options an argument is.
abbrev pub with_option : Bytes → Bytes → Arguments → Option Arguments
with_option flag value a =
    if eqb flag (codes "--data")
    then some (record a { storage = value })
    else if eqb flag (codes "--rom")
    then some (record a { rom = value })
    else if eqb flag (codes "--rpkg")
    then some (record a { rpkg = value })
    else none

abbrev pub then_parse : (Arguments → Option Arguments) → Option Arguments → Option Arguments
then_parse rest none = none
then_parse rest (some a) = rest a

-- The loop over `argv`; none where an argument is unknown, or an option has no value.
unfoldable pub parse_arguments : List Bytes → Arguments → Option Arguments
parse_arguments [] a = some a
parse_arguments (flag ∷ []) a = none
parse_arguments (flag ∷ value ∷ rest) a =
    then_parse (parse_arguments rest) (with_option flag value a)

-- EKA2L1's part: `install_rom_with_optional_rpkg` with the storage root's two folders, and
-- `save_devices`.
pub record Installer {ℓ} (W : Type ℓ) : Type ℓ where
  pub add_path : Bytes → Bytes → Bytes
  pub install_rom : Bytes → Bytes → Bytes → Bytes → W → W × InstallError
  pub save_devices : W → W

module _ {ℓ} {W : Type ℓ} (i : Installer W) where
  abbrev pub ended : W × InstallError → W × ℕ
  ended (w, error_none) = (i.save_devices w, 0)
  ended (w, error) = (w, 1)

  abbrev pub provide : Option Arguments → W → W × ℕ
  provide none w = (w, 2)
  provide (some a) w =
      if is_empty a.rom
      then (w, 2)
      else ended (
          i.install_rom a.rom a.rpkg (i.add_path a.storage (codes "roms/"))
            (i.add_path a.storage (codes "drives/z/")) w)

  -- `main`, with the exit code.
  unfoldable pub main : List Bytes → W → W × ℕ
  unfolding parse_arguments
  main arguments w = provide (parse_arguments arguments no_arguments) w
