-- ===== src/Memfs/Node.antt =====
-- waterbox/memfs.h: `memory_node`, and the `std::map` of its children.
pub mod Map
pub mod Walk
pub mod Tree
use chimera_core_eka2l.Prelude.{
  ℕ, suc, ◌+◌, ◌≡◌, Bool, true, false, Option, none, some, List, [], ◌∷◌, ◌++◌, Bytes, codes, eqb,
  less, if◌then◌else◌, length,
}
use chimera_core_eka2l.Memfs.Path.{lowered}

-- The fields in the source's order: name, is_dir, children, bytes, fixed. `fixed` is the view of a
-- held package that `fixed` and `fixed_size` make together, none for a null pointer. The children
-- are the map's entries in its order.
mutual
  pub data Node : Type 0 where
    node : Bytes → Bool → Children → Bytes → Option Bytes → Node

  pub data Children : Type 0 where
    nil : Children
    cons : Bytes → Node → Children → Children

abbrev pub name : Node → Bytes
name (node n d c b f) = n

abbrev pub is_dir : Node → Bool
is_dir (node n d c b f) = d

abbrev pub children : Node → Children
children (node n d c b f) = c

abbrev pub bytes : Node → Bytes
bytes (node n d c b f) = b

abbrev pub fixed : Node → Option Bytes
fixed (node n d c b f) = f

abbrev pub set_name : Bytes → Node → Node
set_name v (node n d c b f) = node v d c b f

abbrev pub set_dir : Bool → Node → Node
set_dir v (node n d c b f) = node n v c b f

abbrev pub set_children : Children → Node → Node
set_children v (node n d c b f) = node n d v b f

abbrev pub set_bytes : Bytes → Node → Node
set_bytes v (node n d c b f) = node n d c v f

abbrev pub set_fixed : Bytes → Node → Node
set_fixed v (node n d c b f) = node n d c b (some v)

-- A default-constructed node, as `operator[]` makes one.
abbrev pub empty_node : Node
empty_node = node [] false nil [] none

abbrev pub or_empty : Option Node → Node
or_empty none = empty_node
or_empty (some n) = n

-- `children.find(k)`
unfoldable pub find : Bytes → Children → Option Node
find k nil = none
find k (cons j n c) = if eqb j k then some n else find k c

-- `children[k] = v`: in place, or at the place that the order gives.
unfoldable pub put : Bytes → Node → Children → Children
put k v nil = cons k v nil
put k v (cons j n c) =
    if eqb j k then cons k v c else if less k j then cons k v (cons j n c) else cons j n (put k v c)

-- `children.erase(found)` of the entry of `k`
unfoldable pub erase : Bytes → Children → Children
erase k nil = nil
erase k (cons j n c) = if eqb j k then c else cons j n (erase k c)

-- `child.second.name` of each child, in order
unfoldable pub child_names : Children → List Bytes
child_names nil = []
child_names (cons k n c) = name n ∷ child_names c

-- The bytes that a reader sees: `fixed ? fixed : bytes`, of `fixed_size` or `bytes.size()`.
abbrev pub content : Node → Bytes
content (node n d c b none) = b
content (node n d c b (some v)) = v

-- The loops of `resolve`, `resolve_parent`: down from a node by the lowercased components.
unfoldable pub walk : Node → List Bytes → Option Node
walk n [] = some n
walk n (part ∷ parts) = elim (find (lowered part) (children n)) [
  | none ↦ none
  | some m ↦ walk m parts
]

-- The node that a pointer reaches: a pointer is the map keys on the way from the drive's root.
unfoldable pub look : Node → List Bytes → Option Node
look n [] = some n
look n (k ∷ keys) = elim (find k (children n)) [ none ↦ none | some m ↦ look m keys ]

-- A write through such a pointer.
unfoldable pub modify : (Node → Node) → Node → List Bytes → Node
modify g n [] = g n
modify g n (k ∷ keys) = elim (find k (children n)) [
  | none ↦ n
  | some m ↦ set_children (put k (modify g m keys) (children n)) n
]

-- `count_entries`, `count_written` and `walk_files`. What `walk_files` hands to its visitor is
-- listed in the order of the calls.
unfoldable mutual
  pub count_entries : Node → ℕ
  count_entries (node n d c b f) = suc (count_entries_in c)

  pub count_entries_in : Children → ℕ
  count_entries_in nil = 0
  count_entries_in (cons k n c) = count_entries n + count_entries_in c

unfoldable mutual
  pub count_written : Node → ℕ
  count_written (node n d c b f) = length b + count_written_in c

  pub count_written_in : Children → ℕ
  count_written_in nil = 0
  count_written_in (cons k n c) = count_written n + count_written_in c

unfoldable mutual
  pub walk_child : Node → Bytes → List (Bytes × Bytes)
  walk_child (node n true c b f) prefix = walk_files c (prefix ++ (n ++ codes "\\"))
  walk_child (node n false c b f) prefix = (prefix ++ n, b) ∷ []

  pub walk_files : Children → Bytes → List (Bytes × Bytes)
  walk_files nil prefix = []
  walk_files (cons k n c) prefix = walk_child n prefix ++ walk_files c prefix
