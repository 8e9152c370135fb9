-- ===== src/Memfs/Resolve.antt =====
-- waterbox/memfs.cpp: `resolve`, `resolve_parent`, and the drives (`mount_empty`, `unmount`,
-- `get_drive_entry` and the tests on a drive).
pub mod Laws
pub mod Parent
use mathlib.Core.Option
use chimera_core_eka2l.Prelude.{
  ℕ, ◌+◌, ◌-◌, Bool, true, false, not, ◌&&◌, ◌||◌, Option, none, some, List, [], ◌∷◌, ◌++◌, map,
  Bytes, codes, ltb, leb, ◌==◌, if◌then◌else◌, get_or, set, is_empty, is_some,
}
use chimera_core_eka2l.Memfs.Path.{lowered, Split, split_path, rewrite_for_eka2}
use chimera_core_eka2l.Memfs.Node.{Node, node, nil, Children, walk, set_dir, set_children}
use chimera_core_eka2l.Memfs.Types.{
  Platform, FileSystem, Attributes, Media, Drive, Mapping, Place, root, mapping, drives,
}

-- The path that is looked up: an EKA2 machine's is rewritten first.
unfoldable pub looked_up : Platform → FileSystem → Bytes → Bytes
looked_up p fs raw = if leb p.eka2 fs.version then rewrite_for_eka2 raw else raw

-- `letter - 'a'`, unless it is no drive or one that is not mounted.
unfoldable pub drive_of : FileSystem → ℕ → Option ℕ
drive_of fs letter =
    if ltb letter b'a' || leb (b'a' + drives) letter || not (mapping fs (letter - b'a')).mounted
    then none
    else some (letter - b'a')

-- The end of both functions: from the drive's root by the components.
unfoldable pub descend : FileSystem → ℕ → List Bytes → Option (Place × Node)
descend fs letter parts = elim (drive_of fs letter) [
  | none ↦ none
  | some drv ↦
      Option.map (λ n. (record { drive = drv; keys = map lowered parts }, n))
        (walk (root fs drv) parts)
]

-- The pointer that `resolve` returns, with the node that it points to.
unfoldable pub resolve : Platform → FileSystem → Bytes → Option (Place × Node)
resolve p fs raw =
    let s = split_path (looked_up p fs raw) in
    if s.ok then descend fs s.drive_letter s.parts else none

-- `parts.back()`, and the components before it.
abbrev pub back : List Bytes → Bytes
back [] = []
back (part ∷ []) = part
back (part ∷ next ∷ parts) = back (next ∷ parts)

abbrev pub pop_back : List Bytes → List Bytes
pop_back [] = []
pop_back (part ∷ []) = []
pop_back (part ∷ next ∷ parts) = part ∷ pop_back (next ∷ parts)

-- The pointer to the parent, its node, and `leaf`.
unfoldable pub resolve_parent : Platform → FileSystem → Bytes → Option (Place × Node × Bytes)
resolve_parent p fs raw =
    let s = split_path (looked_up p fs raw) in
    if not s.ok || is_empty s.parts
    then none
    else Option.map (λ (at, n). (at, n, back s.parts))
        (descend fs s.drive_letter (pop_back s.parts))

-- The pointer to the child of a node under a key.
abbrev pub child : Place → Bytes → Place
child at k = record at { keys = at.keys ++ k ∷ [] }

unfoldable pub drive_is_mounted : FileSystem → ℕ → Bool
drive_is_mounted fs drv = (mapping fs drv).mounted

unfoldable pub drive_is_write_protected : FileSystem → ℕ → Bool
drive_is_write_protected fs drv = (mapping fs drv).drive.attribute.write_protected

-- A result that an operation returns beside the new state.
unfoldable pub mount_empty : FileSystem → ℕ → Media → Attributes → FileSystem × Bool
mount_empty fs drv media attrib = if (mapping fs drv).mounted then (fs, false) else (
  record fs {
    mappings = set fs.mappings drv (record {
      drive = record {
        attribute = attrib;
        drive_name = (b'a' + drv) ∷ codes ":";
        media_type = media;
        real_path = [];
      };
      mounted = true;
    });
    roots = set fs.roots drv (set_dir true (root fs drv));
  },
  true,
)

-- Nothing has a physical path, so nothing is mounted from one.
unfoldable pub mount_volume_from_path :
    FileSystem → ℕ → Media → Attributes → Bytes → FileSystem × Bool
mount_volume_from_path fs drv media attrib physical_path = (fs, false)

unfoldable pub unmount : FileSystem → ℕ → FileSystem × Bool
unmount fs drv = if not (mapping fs drv).mounted then (fs, false) else (
  record fs {
    mappings = set fs.mappings drv (record (mapping fs drv) { mounted = false });
    roots = set fs.roots drv (set_children nil (root fs drv));
  },
  true,
)

unfoldable pub get_drive_entry : FileSystem → ℕ → Option Drive
get_drive_entry fs drv = if not (mapping fs drv).mounted then none else some (mapping fs drv).drive

unfoldable pub set_epoc_ver : FileSystem → ℕ → FileSystem
set_epoc_ver fs ver = record fs { version = ver }

unfoldable pub exists : Platform → FileSystem → Bytes → Bool
exists p fs path = is_some (resolve p fs (p.ucs2_to_utf8 path))
