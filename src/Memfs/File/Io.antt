-- ===== src/Memfs/File/Io.antt =====
-- The methods of an open file, on the filesystem that its pointer leads into (waterbox/memfs.cpp).
-- A pointer to an entry that is gone is undefined behaviour.
use chimera_core_eka2l.Prelude.{ℕ, Bool, none, some, Bytes, Outcome, returns, throws, undefined}
use chimera_core_eka2l.Memfs.Node.{Node, bytes, set_bytes}
use chimera_core_eka2l.Memfs.Types.{FileSystem, node_at, update}
use chimera_core_eka2l.Memfs.File.{File, write_file, read_file, resize}

-- A write changes the bytes of the node and nothing else of it.
abbrev pub stored : FileSystem → File → Outcome (Node × File × ℕ) → Outcome (FileSystem × File × ℕ)
stored fs f (returns (n, f', written)) =
    returns (update fs f.node (set_bytes (bytes n)), f', written)
stored fs f throws = throws
stored fs f undefined = undefined

unfoldable pub write : FileSystem → File → Bytes → ℕ → ℕ → Outcome (FileSystem × File × ℕ)
write fs f data' size count = elim (node_at fs f.node) [
  | none ↦ undefined
  | some n ↦ stored fs f (write_file n f data' size count)
]

unfoldable pub read : FileSystem → File → ℕ → ℕ → Outcome (File × Bytes)
read fs f size count = elim (node_at fs f.node) [
  | none ↦ undefined
  | some n ↦ returns (read_file n f size count)
]

abbrev pub resized_in : FileSystem → File → Outcome (Node × Bool) → Outcome (FileSystem × Bool)
resized_in fs f (returns (n, done)) = returns (update fs f.node (set_bytes (bytes n)), done)
resized_in fs f throws = throws
resized_in fs f undefined = undefined

unfoldable pub resize_file : FileSystem → File → ℕ → Outcome (FileSystem × Bool)
resize_file fs f new_size = elim (node_at fs f.node) [
  | none ↦ undefined
  | some n ↦ resized_in fs f (resize n new_size)
]
