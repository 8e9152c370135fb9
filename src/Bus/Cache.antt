-- ===== src/Bus/Cache.antt =====
-- The one-page cache of `resolve_user` (waterbox/machine.cpp) is never seen.
use mathlib.Core.Option
use chimera_core_eka2l.Prelude.{
  ℕ, ◌+◌, ◌%◌, ◌≡◌, refl, sym, ap, ◌∙◌, false, Option, none, some, ◌==◌, ==_iff, if◌then◌else◌,
  Bool-cases, inl, inr,
}
use chimera_core_eka2l.Bus.{Bus, page_size, page_of, keep_page, look_in, try_cache, resolve_user}

-- What an address means, the cache left aside.
unfoldable pub translate : Option (ℕ → Option ℕ) → ℕ → Option ℕ
translate none addr = none
translate (some pages) addr =
    if page_of addr == 0
    then none
    else Option.map (λ host. host + addr % page_size) (pages (page_of addr))

-- The cached page, where there is one, is what the page tables say.
abbrev pub Agrees : Option (ℕ → Option ℕ) → ℕ → Option ℕ → Type 0
Agrees pages page none = Unit
Agrees pages page (some host) =
    (addr : ℕ) → page_of addr ≡ page → translate pages addr ≡ some (host + addr % page_size)

abbrev pub IsCoherent : Bus → Type 0
IsCoherent m = Agrees m.pages m.cached_page m.cached_host

-- What a lookup answers and leaves.
pub record Looked (m : Bus) (addr : ℕ) (r : Bus × Option ℕ) : Type 0 where
  pub answer : r.1 ≡ translate m.pages addr
  pub coherent : IsCoherent r.0
  pub same_pages : r.0.pages ≡ m.pages
  pub same_memory : r.0.memory ≡ m.memory

keep_page-Looked :
    (m : Bus) (addr : ℕ) (o : Option ℕ)
    → translate m.pages addr ≡ Option.map (λ host. host + addr % page_size) o
    → ((a : ℕ)
        → page_of a ≡ page_of addr
        → translate m.pages a ≡ Option.map (λ host. host + a % page_size) o)
    → Looked m addr (keep_page m addr o)
keep_page-Looked m addr none h every = record {
  answer = sym h;
  coherent = tt;
  same_pages = refl;
  same_memory = refl;
}
keep_page-Looked m addr (some host) h every = record {
  answer = sym h;
  coherent = every;
  same_pages = refl;
  same_memory = refl;
}

translate_in :
    (pages : ℕ → Option ℕ) (addr a : ℕ)
    → (page_of addr == 0) ≡ false
    → page_of a ≡ page_of addr
    → translate (some pages) a ≡ Option.map (λ host. host + a % page_size) (pages (page_of addr))
unfolding translate
translate_in pages addr a mapped same = rw (same, mapped) refl

look_in-Looked :
    (m : Bus) (addr : ℕ) (o : Option (ℕ → Option ℕ))
    → m.pages ≡ o
    → IsCoherent m
    → Looked m addr (look_in m addr o)
unfolding translate
look_in-Looked m addr none h c = record {
  answer = sym (ap (λ t. translate t addr) h);
  coherent = c;
  same_pages = refl;
  same_memory = refl;
}
look_in-Looked m addr (some pages) h c = elim (Bool-cases (page_of addr == 0)) [
  | inl trap ↦
      rw (trap, look_in)
        record {
          answer = sym (ap (λ t. translate t addr) h ∙ unfold translate in rw trap refl);
          coherent = c;
          same_pages = refl;
          same_memory = refl;
        }
  | inr mapped ↦
      rw (mapped, look_in)
        (keep_page-Looked m addr (pages (page_of addr))
          (ap (λ t. translate t addr) h ∙ translate_in pages addr addr mapped refl)
          (λ a same. ap (λ t. translate t a) h ∙ translate_in pages addr a mapped same))
]

try_cache-Looked :
    (m : Bus) (addr : ℕ) (o : Option ℕ)
    → m.cached_host ≡ o
    → IsCoherent m
    → Agrees m.pages m.cached_page o
    → Looked m addr (try_cache m addr o)
try_cache-Looked m addr none h c agrees = look_in-Looked m addr m.pages refl c
try_cache-Looked m addr (some host) h c agrees = elim (Bool-cases (page_of addr == m.cached_page)) [
  | inl hit ↦
      rw (hit, try_cache)
        record {
          answer = sym (agrees addr ((==_iff (page_of addr) m.cached_page).0 hit));
          coherent = c;
          same_pages = refl;
          same_memory = refl;
        }
  | inr miss ↦ rw (miss, try_cache) (look_in-Looked m addr m.pages refl c)
]

pub resolve_user-Looked : (m : Bus) (addr : ℕ) → IsCoherent m → Looked m addr (resolve_user m addr)
unfolding resolve_user
resolve_user-Looked m addr c = try_cache-Looked m addr m.cached_host refl c c
