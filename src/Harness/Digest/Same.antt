-- ===== src/Harness/Digest/Same.antt =====
-- The reports that waterbox/run-native.cpp and waterbox/run-wbx.c make of the address space are one.
use native.Mathlib.Nat.{mod-eq_of_lt}
use chimera_core_eka2l.Prelude.{
  ℕ, zero, suc, ◌+◌, ◌-◌, ◌%◌, ◌≤◌, ◌<◌, ◌≡◌, refl, sym, ap, ◌∙◌, subst, true, Option, none, some,
  arith,
}
use chimera_core_eka2l.Bus.{Bus, Host, with_bus, byte_at, resolve_user, peek_user, user_bus_size}
use chimera_core_eka2l.Bus.Cache.{IsCoherent, resolve_user-Looked}
use chimera_core_eka2l.Bus.Pages.{bytes_from}
use chimera_core_eka2l.Bus.Exports.{peek_bus_in}
use chimera_core_eka2l.Harness.Digest.Window.{
  account_all, report_of, bus_report, account_all-report_of,
}
use chimera_core_eka2l.Harness.Digest.{
  BusReport, no_bytes, account, native_from, native_bus, wbx_from, wbx_bus, bus_size,
  bus_body_first, bus_body_last,
}

native_from-account_all :
    (n addr : ℕ) (m : Bus) (r : BusReport)
    → IsCoherent m
    → (native_from n addr m r).1 ≡ account_all addr (bytes_from m.pages m.memory addr n) r
unfolding native_from account_all peek_user
native_from-account_all zero addr m r c = refl
native_from-account_all (suc n) addr m r c =
    let l = resolve_user-Looked m addr c in
    native_from-account_all n (suc addr) (resolve_user m addr).0
      (account addr (byte_at m.memory (resolve_user m addr).1) r) l.coherent
    ∙ rw (l.same_pages, l.same_memory, l.answer) refl

byte_at-lt : (memory : ℕ → ℕ) (o : Option ℕ) → ((a : ℕ) → memory a < 256) → byte_at memory o < 256
byte_at-lt memory none h = omega arith
byte_at-lt memory (some host) h = h host

wbx_from-account_all :
    (n addr : ℕ) (h : Host) (r : BusReport)
    → h.inited ≡ true
    → addr + n ≤ user_bus_size
    → ((a : ℕ) → h.bus.memory a < 256)
    → IsCoherent h.bus
    → (wbx_from n addr h r).1 ≡ account_all addr (bytes_from h.bus.pages h.bus.memory addr n) r
unfolding wbx_from account_all peek_user
wbx_from-account_all zero addr h r on small bytes c = refl
wbx_from-account_all (suc n) addr h r on small bytes c =
    let l = resolve_user-Looked h.bus addr c in
    let b = byte_at h.bus.memory (resolve_user h.bus addr).1 in
    let after = with_bus h (resolve_user h.bus addr).0 in
    ap (λ p. (wbx_from n (suc addr) p.0 (account addr (p.1 % 256) r)).1)
      (peek_bus_in h addr on (omega arith))
    ∙ ap (λ v. (wbx_from n (suc addr) after (account addr v r)).1)
        (mod-eq_of_lt (byte_at-lt h.bus.memory (resolve_user h.bus addr).1 bytes))
    ∙ wbx_from-account_all n (suc addr) after (account addr b r) on (omega arith)
        (λ a. subst (λ f. f a < 256) (sym l.same_memory) (bytes a)) l.coherent
    ∙ rw (l.same_pages, l.same_memory, l.answer) refl

native_from-report_of :
    (a b c : ℕ) (m : Bus)
    → a ≡ bus_body_first
    → a + b ≡ bus_body_last
    → IsCoherent m
    → (native_from (a + (b + c)) 0 m no_bytes).1 ≡ report_of m.pages m.memory a b c
native_from-report_of a b c m first last coherent =
    native_from-account_all (a + (b + c)) 0 m no_bytes coherent
    ∙ account_all-report_of m.pages m.memory a b c first last

wbx_from-report_of :
    (a b c : ℕ) (h : Host)
    → a ≡ bus_body_first
    → a + b ≡ bus_body_last
    → a + (b + c) ≤ user_bus_size
    → h.inited ≡ true
    → ((i : ℕ) → h.bus.memory i < 256)
    → IsCoherent h.bus
    → (wbx_from (a + (b + c)) 0 h no_bytes).1 ≡ report_of h.bus.pages h.bus.memory a b c
wbx_from-report_of a b c h first last small on bytes coherent =
    wbx_from-account_all (a + (b + c)) 0 h no_bytes on (omega arith) bytes coherent
    ∙ account_all-report_of h.bus.pages h.bus.memory a b c first last

-- For two machines with the same page tables and host's bytes, and page caches that are coherent with
-- these tables (none or a page as the tables have it), both programs' lines on the bus are the report
-- of the address space that the tables make of the bytes: how many of the 64 MiB's bytes are not 0, and
-- of the body of the heap that count and the digest.
pub wbx_bus-native_bus :
    (h : Host) (m : Bus)
    → h.inited ≡ true
    → h.bus.pages ≡ m.pages
    → h.bus.memory ≡ m.memory
    → ((a : ℕ) → m.memory a < 256)
    → IsCoherent h.bus
    → IsCoherent m
    → ((native_bus m).1 ≡ bus_report m.pages m.memory) × ((wbx_bus h).1 ≡ (native_bus m).1)
unfolding native_bus wbx_bus bus_report
wbx_bus-native_bus h m on pages memory bytes c d =
    let b = bus_body_last - bus_body_first in
    let rest = bus_size - bus_body_last in
    let native = native_from-report_of bus_body_first b rest m refl refl d in
    let wbx =
      wbx_from-report_of bus_body_first b rest h refl refl (omega arith) on
        (λ i. subst (λ f. f i < 256) (sym memory) (bytes i)) c in
    (
      native,
      wbx
          ∙ ap (λ p. report_of p h.bus.memory bus_body_first b rest) pages
          ∙ ap (λ f. report_of m.pages f bus_body_first b rest) memory
          ∙ sym native,
    )
