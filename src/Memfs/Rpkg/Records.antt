-- ===== src/Memfs/Rpkg/Records.antt =====
-- The loop of `mount_rpkg` over a package's entries (waterbox/memfs.cpp).
use chimera_core_eka2l.Prelude.{
  ℕ, zero, suc, ◌-◌, ◌*◌, ◌^◌, ◌≤◌, ◌<◌, ◌≡◌, refl, sym, Bytes, ltb, drop, length, length-drop,
  returns, throws, arith, Bool-cases, inl, inr,
}
use chimera_core_eka2l.Memfs.Node.{Node}
use chimera_core_eka2l.Memfs.Types.{Platform}
use chimera_core_eka2l.Memfs.Rpkg.{field, read_entries}

-- What is left behind the entry at the start of `cursor`.
abbrev behind_entry : Bytes → Bytes
behind_entry cursor =
    let behind = drop (field 16 8 cursor * 2) (drop 24 cursor) in
    drop (field 0 8 behind) (drop 8 behind)

behind_entry-shorter :
    (cursor : Bytes) → 24 ≤ length cursor → suc (length (behind_entry cursor)) ≤ length cursor
behind_entry-shorter cursor h =
    let behind = drop (field 16 8 cursor * 2) (drop 24 cursor) in
    omega (
      arith,
      length-drop (field 0 8 behind) (drop 8 behind),
      length-drop 8 behind,
      length-drop (field 16 8 cursor * 2) (drop 24 cursor),
      length-drop 24 cursor,
    )

read_entries_short :
    (p : Platform) (fuel : ℕ) (cursor : Bytes) (at : Node) (files : ℕ)
    → length cursor < 24
    → read_entries p fuel cursor at files ≡ returns (at, files)
unfolding read_entries
read_entries_short p zero cursor at files h = refl
read_entries_short p (suc fuel) cursor at files h = ground (arith, h)

-- The loop ends by itself: with as much fuel as the package has bytes, or more, its result is the
-- same whatever the fuel.
pub read_entries_fuel :
    (p : Platform) (f g : ℕ) (cursor : Bytes) (at : Node) (files : ℕ)
    → length cursor ≤ f
    → length cursor ≤ g
    → read_entries p f cursor at files ≡ read_entries p g cursor at files
unfolding read_entries
read_entries_fuel p zero g cursor at files h k =
    sym (read_entries_short p g cursor at files (omega arith))
read_entries_fuel p (suc f) zero cursor at files h k =
    read_entries_short p (suc f) cursor at files (omega arith)
read_entries_fuel p (suc f) (suc g) cursor at files h k =
    elim (Bool-cases (ltb (length cursor) 24)) [
      | inl short ↦ rw short refl
      | inr long ↦
          let shorter = behind_entry-shorter cursor (ground (arith, long)) in
          rw
            (read_entries_fuel p f g (behind_entry cursor) _ _ (omega (arith, shorter))
              (omega (arith, shorter)))
            refl
    ]

-- An entry whose path is said to be 2^63 - 4 characters long passes the check of its length, which
-- wraps to 0, and the path's allocation throws.
read_entries_wraps :
    (p : Platform) (fuel : ℕ) (cursor : Bytes) (at : Node) (files : ℕ)
    → 24 ≤ length cursor
    → field 16 8 cursor ≡ 2 ^ 63 - 4
    → read_entries p (suc fuel) cursor at files ≡ throws
unfolding read_entries
read_entries_wraps p fuel cursor at files h k = ground (arith, h, k)
