-- ===== src/Embedded/Found.antt =====
-- The map files that the machine lists (waterbox/machine.cpp) are ones that it can read.
use chimera_core_eka2l.Prelude.{
  ◌≡◌, refl, true, List, [], ◌∷◌, ◌++◌, Bytes, eqb_refl, is_some, arith, Bool-cases, inl, inr, All,
}
use chimera_core_eka2l.Embedded.{Blobs, is_map_name, list_map_files, read_patch_file}

-- A name that is listed and can be read.
pub record IsReadable (blobs : Blobs) (name : Bytes) : Type 0 where
  pub named : is_map_name name ≡ true
  pub read : is_some (read_patch_file blobs name) ≡ true

All-append :
    (blobs : Blobs) (xs : List Bytes) (x : Bytes)
    → All (IsReadable blobs) xs
    → IsReadable blobs x
    → All (IsReadable blobs) (xs ++ x ∷ [])
All-append blobs [] x h k = (k, tt)
All-append blobs (y ∷ xs) x h k = (h.0, All-append blobs xs x h.1 k)

-- A table with more in front reads what it read.
read_more :
    (name data' : Bytes) (blobs : Blobs) (x : Bytes)
    → is_some (read_patch_file blobs x) ≡ true
    → is_some (read_patch_file ((name, data') ∷ blobs) x) ≡ true
unfolding read_patch_file
read_more name data' blobs x h = ground (arith, h)

read_first :
    (name data' : Bytes) (blobs : Blobs)
    → is_some (read_patch_file ((name, data') ∷ blobs) name) ≡ true
unfolding read_patch_file
read_first name data' blobs = rw (eqb_refl name) refl

-- The rest of a table, from the names so far.
listed :
    (all rest : Blobs) (names : List Bytes)
    → ((x : Bytes)
        → is_some (read_patch_file rest x) ≡ true
        → is_some (read_patch_file all x) ≡ true)
    → All (IsReadable all) names
    → All (IsReadable all) (list_map_files rest names)
unfolding list_map_files
listed all [] names more h = h
listed all ((name, data') ∷ rest) names more h = elim (Bool-cases (is_map_name name)) [
  | inl taken ↦ rw taken (
      listed all rest (names ++ name ∷ []) (λ x r. more x (read_more name data' rest x r))
        (All-append all names name h
          record { named = taken; read = more name (read_first name data' rest) }))
  | inr left ↦ rw left (listed all rest names (λ x r. more x (read_more name data' rest x r)) h)
]

-- Every name that `list_map_files` lists of a table ends in ".map", and `read_patch_file` answers for
-- it.
pub list_map_files-IsReadable : (blobs : Blobs) → All (IsReadable blobs) (list_map_files blobs [])
list_map_files-IsReadable blobs = listed blobs blobs [] (λ x h. h) tt
