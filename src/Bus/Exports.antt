-- ===== src/Bus/Exports.antt =====
-- `PeekBus`, `ReadBus` and `PokeBus` of waterbox/wbx-entry.cpp.
use chimera_core_eka2l.Prelude.{
  ℕ, zero, suc, ◌+◌, ◌≤◌, ◌<◌, ◌≡◌, ◌≢◌, refl, sym, ap, ◌∙◌, true, false, Option, none, some, [],
  ◌∷◌, Bytes, ◌==◌, arith, Bool-cases, inl, inr, ==_iff, ==_refl, replicate,
}
use chimera_core_eka2l.Bus.{
  Bus, Host, with_bus, user_bus_size, run_size, byte_at, stored_at, resolve_user, peek_user,
  read_user, poke_user, peek_bus, read_bus, clamped,
}
use chimera_core_eka2l.Bus.Cache.{translate, IsCoherent, resolve_user-Looked}
use chimera_core_eka2l.Bus.Pages.{peek_all, read_user-peek_user}

-- `PeekBus` at one address after the other.
abbrev pub peek_bus_all : Host → ℕ → ℕ → Host × Bytes
peek_bus_all h addr zero = (h, [])
peek_bus_all h addr (suc n) =
    let r = peek_bus h 0 false addr in
    let rest = peek_bus_all r.0 (suc addr) n in (rest.0, r.1 ∷ rest.1)

pub peek_bus_in :
    (h : Host) (addr : ℕ)
    → h.inited ≡ true
    → addr < user_bus_size
    → peek_bus h 0 false addr ≡ (with_bus h (peek_user h.bus addr).0, (peek_user h.bus addr).1)
unfolding peek_bus
peek_bus_in h addr on small = ground arith

peek_bus_all-peek_all :
    (h : Host) (addr n : ℕ)
    → h.inited ≡ true
    → addr + n ≤ user_bus_size
    → (peek_bus_all h addr n).1 ≡ (peek_all h.bus addr n).1
peek_bus_all-peek_all h addr zero on small = refl
peek_bus_all-peek_all h addr (suc n) on small =
    ap (λ r. r.1 ∷ (peek_bus_all r.0 (suc addr) n).1) (peek_bus_in h addr on (omega arith))
    ∙ ap (λ t. (peek_user h.bus addr).1 ∷ t)
        (peek_bus_all-peek_all (with_bus h (peek_user h.bus addr).0) (suc addr) n on (omega arith))

read_bus_in :
    (h : Host) (addr len : ℕ)
    → h.inited ≡ true
    → len ≤ run_size
    → addr + len ≤ user_bus_size
    → (read_bus h 0 false addr false len).1 ≡ (read_user h.bus addr len).1
unfolding read_bus clamped
read_bus_in h addr len on short small = ground arith

-- A run of at most 64 KiB that lies in the bus is read as `PeekBus` reads it byte by byte (with the
-- machine initialised and its page cache coherent).
pub read_bus-peek_bus :
    (h : Host) (addr len : ℕ)
    → h.inited ≡ true
    → IsCoherent h.bus
    → len ≤ run_size
    → addr + len ≤ user_bus_size
    → (read_bus h 0 false addr false len).1 ≡ (peek_bus_all h addr len).1
read_bus-peek_bus h addr len on c short small =
    read_bus_in h addr len on short small
    ∙ read_user-peek_user h.bus addr len c (omega arith)
    ∙ sym (peek_bus_all-peek_all h addr len on small)

-- A run that starts in the bus and passes its end reads as zeros throughout, also where `PeekBus`
-- would answer the machine's bytes.
read_bus_past_end :
    (h : Host) (addr len : ℕ)
    → len ≤ run_size
    → user_bus_size < addr + len
    → read_bus h 0 false addr false len ≡ (h, replicate len 0)
unfolding read_bus clamped
read_bus_past_end h addr len short big = ground arith

-- What a poke leaves: the byte at every address of the game.
abbrev pub byte_of : Bus → ℕ → ℕ
byte_of m addr = byte_at m.memory (translate m.pages addr)

peek_user_lem : (m : Bus) (addr : ℕ) → IsCoherent m → (peek_user m addr).1 ≡ byte_of m addr
unfolding peek_user
peek_user_lem m addr c = ap (byte_at m.memory) (resolve_user-Looked m addr c).answer

poke_user-IsCoherent : (m : Bus) (addr v : ℕ) → IsCoherent m → IsCoherent (poke_user m addr v)
unfolding poke_user
poke_user-IsCoherent m addr v c = (resolve_user-Looked m addr c).coherent

stored_same :
    (memory : ℕ → ℕ) (host v : ℕ) (o : Option ℕ)
    → o ≡ some host
    → byte_at (stored_at o v memory) o ≡ v
stored_same memory host v none e = cc
stored_same memory host v (some h) e = ground (arith, ==_refl h)

stored_other :
    (memory : ℕ → ℕ) (v : ℕ) (o p : Option ℕ)
    → o ≢ p
    → byte_at (stored_at o v memory) p ≡ byte_at memory p
stored_other memory v none p ne = refl
stored_other memory v (some h) none ne = refl
stored_other memory v (some h) (some k) ne = elim (Bool-cases (k == h)) [
  | inl same ↦ elim (ne (ap some (sym ((==_iff k h).0 same)))) [ ]
  | inr other ↦ rw other refl
]

-- A byte poked at a mapped address is the byte peeked there, and the byte at an address that stands
-- for other host memory is as it was (with a coherent page cache).
pub peek_user-poke_user :
    (m : Bus) (addr host v other : ℕ)
    → IsCoherent m
    → translate m.pages addr ≡ some host
    → translate m.pages addr ≢ translate m.pages other
    → ((peek_user (poke_user m addr v) addr).1 ≡ v)
      × ((peek_user (poke_user m addr v) other).1 ≡ (peek_user m other).1)
unfolding poke_user
peek_user-poke_user m addr host v other c found ne =
    let l = resolve_user-Looked m addr c in
    let after : (a : ℕ)
        → (peek_user (poke_user m addr v) a).1
          ≡ byte_at (stored_at (translate m.pages addr) v m.memory) (translate m.pages a) =
      λ a.
        peek_user_lem (poke_user m addr v) a (poke_user-IsCoherent m addr v c)
        ∙ ap (λ p. byte_at (stored_at (resolve_user m addr).1 v m.memory) (translate p a))
            l.same_pages
        ∙ ap (λ o. byte_at (stored_at o v m.memory) (translate m.pages a)) l.answer in
    (
      after addr ∙ stored_same m.memory host v (translate m.pages addr) found,
      after other
          ∙ stored_other m.memory v (translate m.pages addr) (translate m.pages other) ne
          ∙ sym (peek_user_lem m other c),
    )
