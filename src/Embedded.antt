-- ===== src/Embedded.antt =====
-- The files that the machine carries in its own binary (waterbox/machine.cpp): the patch files of
-- `embedded_patch_files`, and the shaders of `read_embedded_shader`. The generated tables are
-- parameters, each a list of names and contents.
pub mod Found
use chimera_core_eka2l.Prelude.{
  ℕ, ◌-◌, Bool, true, false, ◌&&◌, Option, none, some, List, [], ◌∷◌, ◌++◌, Bytes, codes, eqb, ltb,
  if◌then◌else◌, length, drop,
}
use chimera_core_eka2l.Install.{leaf_of}

abbrev pub Blobs : Type 0
Blobs = List (Bytes × Bytes)

-- Longer than four bytes, and ".map" at the end.
unfoldable pub is_map_name : Bytes → Bool
unfolding eqb
is_map_name name = ltb 4 (length name) && eqb (drop (length name - 4) name) (codes ".map")

-- What the table adds to the names.
unfoldable pub list_map_files : Blobs → List Bytes → List Bytes
unfolding is_map_name
list_map_files [] names = names
list_map_files ((name, data') ∷ blobs) names =
    list_map_files blobs (if is_map_name name then names ++ name ∷ [] else names)

-- The first of the name; none for false.
unfoldable pub read_patch_file : Blobs → Bytes → Option Bytes
unfolding eqb
read_patch_file [] name = none
read_patch_file ((blob_name, data') ∷ blobs) name =
    let rest = read_patch_file blobs name in if eqb name blob_name then some data' else rest

-- By what stands behind the path's last separator.
unfoldable pub read_embedded_shader : Blobs → Bytes → Option Bytes
unfolding read_patch_file leaf_of
read_embedded_shader blobs path = read_patch_file blobs (leaf_of [] path)
