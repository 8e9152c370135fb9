-- ===== src/Bus.antt =====
-- The machine's memory as an address space: `resolve_user`, `peek_user`, `read_user` and `poke_user`
-- of waterbox/machine.cpp, and the exports `PeekBus`, `ReadBus` and `PokeBus` of
-- waterbox/wbx-entry.cpp. The emulator's memory system is a parameter of the state: `pages` is its
-- `get_real_pointer` for the address space of the game, and `memory` the host's bytes.
pub mod Cache
pub mod Pages
pub mod Exports
use mathlib.Core.Option
use chimera_core_eka2l.Prelude.{
  ℕ, zero, suc, ◌+◌, ◌-◌, ◌*◌, ◌/◌, ◌%◌, ◌^◌, min, Bool, true, false, not, ◌&&◌, ◌||◌, Option, none,
  some, List, [], ◌∷◌, ◌++◌, Bytes, ltb, leb, ◌==◌, if◌then◌else◌, is_some, replicate,
}

abbrev pub page_size : ℕ
page_size = 4096

abbrev pub u32 : ℕ
u32 = 2 ^ 32

abbrev pub user_bus_size : ℕ
user_bus_size = 67108864

abbrev pub run_size : ℕ
run_size = 65536

-- `get_memory_system()` is none before a device is set. A null host address is none.
pub record Bus : Type 0 where
  pub pages : Option (ℕ → Option ℕ)
  pub memory : ℕ → ℕ
  pub cached_page : ℕ
  pub cached_host : Option ℕ

-- `addr & PAGE_MASK` and `addr & ~PAGE_MASK`.
abbrev pub page_of : ℕ → ℕ
page_of addr = addr - addr % page_size

-- What the page tables answered, kept. A page with nothing mapped at it empties the cache.
abbrev pub keep_page : Bus → ℕ → Option ℕ → Bus × Option ℕ
keep_page m addr none = (record m { cached_page = 4294967295; cached_host = none }, none)
keep_page m addr (some host) = (
  record m { cached_page = page_of addr; cached_host = some host },
  some (host + addr % page_size),
)

abbrev pub look_in : Bus → ℕ → Option (ℕ → Option ℕ) → Bus × Option ℕ
look_in m addr none = (m, none)
look_in m addr (some get_real_pointer) =
    if page_of addr == 0 then (m, none) else keep_page m addr (get_real_pointer (page_of addr))

abbrev pub try_cache : Bus → ℕ → Option ℕ → Bus × Option ℕ
try_cache m addr none = look_in m addr m.pages
try_cache m addr (some host) =
    if page_of addr == m.cached_page
    then (m, some (host + addr % page_size))
    else look_in m addr m.pages

unfoldable pub resolve_user : Bus → ℕ → Bus × Option ℕ
resolve_user m addr = try_cache m addr m.cached_host

abbrev pub byte_at : (ℕ → ℕ) → Option ℕ → ℕ
byte_at memory none = 0
byte_at memory (some host) = memory host

unfoldable pub peek_user : Bus → ℕ → Bus × ℕ
peek_user m addr = let r = resolve_user m addr in (r.0, byte_at m.memory r.1)

-- `memcpy` from the host, and `memset` where nothing is mapped.
abbrev pub run_at : (ℕ → ℕ) → Option ℕ → ℕ → Bytes
run_at memory host zero = []
run_at memory none (suc n) = 0 ∷ run_at memory none n
run_at memory (some host) (suc n) = memory host ∷ run_at memory (some (suc host)) n

-- The loop, on fuel; it ends by itself when `len` is used up. Addresses wrap at 32 bits.
unfoldable pub read_from : ℕ → Bus → ℕ → ℕ → Bus × Bytes
read_from zero m addr len = (m, [])
read_from (suc fuel) m addr zero = (m, [])
read_from (suc fuel) m addr (suc len) =
    let n = min (suc len) (page_size - addr % page_size) in
    let r = resolve_user m addr in
    let rest = read_from fuel r.0 ((addr + n) % u32) (suc len - n) in
    (rest.0, run_at m.memory r.1 n ++ rest.1)

unfoldable pub read_user : Bus → ℕ → ℕ → Bus × Bytes
read_user m addr len = read_from len m addr len

abbrev pub stored_at : Option ℕ → ℕ → (ℕ → ℕ) → ℕ → ℕ
stored_at none v memory = memory
stored_at (some host) v memory = λ a. if a == host then v else memory a

unfoldable pub poke_user : Bus → ℕ → ℕ → Bus
poke_user m addr v = let r = resolve_user m addr in record r.0 { memory = stored_at r.1 v m.memory }

-- The exports' arguments are signed: `sign` says that the address, or the length, is negative.
pub record Host : Type 0 where
  pub inited : Bool
  pub bus : Bus

abbrev pub with_bus : Host → Bus → Host
with_bus h m = record h { bus = m }

unfoldable pub peek_bus : Host → ℕ → Bool → ℕ → Host × ℕ
peek_bus h bus sign addr =
    if not h.inited || not (bus == 0) || sign || leb user_bus_size addr
    then (h, 0)
    else let r = peek_user h.bus addr in (with_bus h r.0, r.1)

unfoldable pub clamped : Bool → ℕ → ℕ
clamped sign len = if sign then 0 else if ltb run_size len then run_size else len

unfoldable pub read_bus : Host → ℕ → Bool → ℕ → Bool → ℕ → Host × Bytes
read_bus h bus sign addr len_sign raw_len =
    let len = clamped len_sign raw_len in
    if not h.inited || not (bus == 0) || sign || ltb user_bus_size (addr + len)
    then (h, replicate len 0)
    else let r = read_user h.bus addr len in (with_bus h r.0, r.1)

unfoldable pub poke_bus : Host → ℕ → Bool → ℕ → ℕ → Host
poke_bus h bus sign addr value =
    if not h.inited || not (bus == 0) || sign || leb user_bus_size addr
    then h
    else with_bus h (poke_user h.bus addr (value % 256))
