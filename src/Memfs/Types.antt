-- ===== src/Memfs/Types.antt =====
-- The state of `memory_file_system` (waterbox/memfs.h), its constructor, and what it takes from
-- EKA2L1, which is not part of this repository.
pub mod Update
pub mod WellFormed
use chimera_core_eka2l.Prelude.{
  ℕ, suc, ◌+◌, Bool, true, false, not, ◌&&◌, ◌||◌, Option, none, some, List, [], ◌∷◌, ◌++◌, Bytes,
  codes, ◌==◌, if◌then◌else◌, get_or, set, replicate,
}
use chimera_core_eka2l.Memfs.Node.{Node, node, nil, Children, empty_node, look, modify}

-- `io_attrib_*`: the bits of an attribute word by their names, and the word's other bits.
pub record Attributes : Type 0 where
  pub include_dir : Bool
  pub include_file : Bool
  pub allow_uid : Bool
  pub write_protected : Bool
  pub internal : Bool
  pub removeable : Bool
  pub others : ℕ

abbrev pub attrib_none : Attributes
attrib_none = record {
  include_dir = false;
  include_file = false;
  allow_uid = false;
  write_protected = false;
  internal = false;
  removeable = false;
  others = 0;
}

-- `attribute == io_attrib_none`
abbrev pub is_none : Attributes → Bool
is_none a =
    not (
      a.include_dir || a.include_file || a.allow_uid || a.write_protected || a.internal
      || a.removeable)
    && a.others == 0

-- `READ_MODE`, `WRITE_MODE`, `APPEND_MODE` and the word's other bits.
pub record Mode : Type 0 where
  pub read : Bool
  pub write : Bool
  pub append : Bool
  pub others : ℕ

-- `drive_media`
pub data Media : Type 0 where
  physical rom : Media
  other_media : ℕ → Media

-- `eka2l1::drive`, the fields that the filesystem writes.
pub record Drive : Type 0 where
  pub attribute : Attributes
  pub drive_name : Bytes
  pub media_type : Media
  pub real_path : Bytes

-- An element of `mappings_`.
pub record Mapping : Type 0 where
  pub drive : Drive
  pub mounted : Bool

pub record FileSystem : Type 0 where
  pub roots : List Node
  pub mappings : List Mapping
  pub version : ℕ
  pub packages : List Bytes

-- EKA2L1's code: the conversions and path helpers of `common`, the wildcard matcher, the two
-- values of `epocver` that the filesystem names, and a default-constructed drive.
pub record Platform : Type 0 where
  pub ucs2_to_utf8 : Bytes → Bytes
  pub utf8_to_ucs2 : Bytes → Bytes
  pub full_wildcard_match : Bytes → Bytes → Bool → Bool
  pub add_path : Bytes → Bytes → Bytes
  pub filename : Bytes → Bytes
  pub eka2 : ℕ
  pub epoc6 : ℕ
  pub default_drive : Drive

-- `drive_z + 1`: a drive's number is its letter's place in the alphabet.
abbrev pub drives : ℕ
drives = 26

abbrev pub default_mapping : Platform → Mapping
default_mapping p = record { drive = p.default_drive; mounted = false }

-- The constructor: nothing is mounted, and every root is a directory.
unfoldable pub memory_file_system : Platform → FileSystem
memory_file_system p = record {
  roots = replicate drives (node [] true nil [] none);
  mappings = replicate drives (default_mapping p);
  version = p.epoc6;
  packages = [];
}

abbrev pub root : FileSystem → ℕ → Node
root fs drv = get_or fs.roots drv empty_node

abbrev pub no_mapping : Mapping
no_mapping = record {
  drive = record {
    attribute = attrib_none;
    drive_name = [];
    media_type = physical;
    real_path = [];
  };
  mounted = false;
}

abbrev pub mapping : FileSystem → ℕ → Mapping
mapping fs drv = get_or fs.mappings drv no_mapping

-- A `memory_node *`: the drive, and the keys on the way from its root.
pub record Place : Type 0 where
  pub drive : ℕ
  pub keys : List Bytes

-- What the pointer points to; none, if that entry is gone.
unfoldable pub node_at : FileSystem → Place → Option Node
node_at fs at = look (root fs at.drive) at.keys

-- A write through the pointer.
unfoldable pub update : FileSystem → Place → (Node → Node) → FileSystem
update fs at g = record fs { roots = set fs.roots at.drive (modify g (root fs at.drive) at.keys) }
