-- ===== src/Bus/Pages.antt =====
-- `read_user` of waterbox/machine.cpp, a page at a time, against `peek_user`, a byte at a time.
use native.Mathlib.Nat.{mod-eq_of_lt}
use mathlib.Core.Option
use chimera_core_eka2l.Prelude.{
  ℕ, zero, suc, ◌+◌, ◌-◌, ◌%◌, ◌≤◌, ◌<◌, min, ◌≡◌, refl, sym, ap, ◌∙◌, Option, none, some, [], ◌∷◌,
  ◌++◌, Bytes, ◌==◌, arith, Option-cases, Bool-cases, inl, inr,
}
use chimera_core_eka2l.Bus.{
  Bus, page_size, page_of, u32, byte_at, run_at, resolve_user, peek_user, read_from, read_user,
}
use chimera_core_eka2l.Bus.Cache.{translate, IsCoherent, resolve_user-Looked}

-- The bytes of a run of addresses.
abbrev pub bytes_from : Option (ℕ → Option ℕ) → (ℕ → ℕ) → ℕ → ℕ → Bytes
bytes_from pages memory addr zero = []
bytes_from pages memory addr (suc n) =
    byte_at memory (translate pages addr) ∷ bytes_from pages memory (suc addr) n

suc_mod :
    (addr : ℕ) → suc (addr % page_size) < page_size → suc addr % page_size ≡ suc (addr % page_size)
suc_mod addr h = omega arith

suc_page : (addr : ℕ) → suc (addr % page_size) < page_size → page_of (suc addr) ≡ page_of addr
suc_page addr h = omega arith

map-suc :
    (o : Option ℕ) (d : ℕ)
    → Option.map (λ host. host + suc d) o ≡ Option.map suc (Option.map (λ host. host + d) o)
map-suc none d = refl
map-suc (some host) d = ap some (omega arith)

translate-suc :
    (pages : Option (ℕ → Option ℕ)) (addr : ℕ)
    → suc (addr % page_size) < page_size
    → translate pages (suc addr) ≡ Option.map suc (translate pages addr)
unfolding translate
translate-suc none addr h = refl
translate-suc (some pages) addr h = elim (Bool-cases (page_of addr == 0)) [
  | inl trap ↦ rw (suc_page addr h, trap) refl
  | inr mapped ↦
      rw (suc_page addr h, mapped, suc_mod addr h)
        (map-suc (pages (page_of addr)) (addr % page_size))
]

run_at-suc :
    (memory : ℕ → ℕ) (o : Option ℕ) (n : ℕ)
    → run_at memory o (suc n) ≡ byte_at memory o ∷ run_at memory (Option.map suc o) n
run_at-suc memory none n = refl
run_at-suc memory (some host) n = refl

run_in_page :
    (pages : Option (ℕ → Option ℕ)) (memory : ℕ → ℕ) (addr n : ℕ)
    → n + addr % page_size ≤ page_size
    → run_at memory (translate pages addr) n ≡ bytes_from pages memory addr n
run_in_page pages memory addr zero h = refl
run_in_page pages memory addr (suc zero) h = elim (Option-cases (translate pages addr)) [
  | inl missing ↦ rw missing refl
  | inr (host, found) ↦ rw found refl
]
run_in_page pages memory addr (suc (suc n)) h =
    run_at-suc memory (translate pages addr) (suc n)
    ∙ ap (λ t. byte_at memory (translate pages addr) ∷ t)
        (ap (λ o. run_at memory o (suc n)) (sym (translate-suc pages addr (omega arith)))
          ∙ run_in_page pages memory (suc addr) (suc n) (omega (arith, suc_mod addr (omega arith))))

pub bytes_from-add :
    (pages : Option (ℕ → Option ℕ)) (memory : ℕ → ℕ) (addr n k : ℕ)
    → bytes_from pages memory addr n ++ bytes_from pages memory (addr + n) k
      ≡ bytes_from pages memory addr (n + k)
bytes_from-add pages memory addr zero k =
    ap (λ a. bytes_from pages memory a k) {x = addr + 0} (omega arith)
    ∙ ap (λ j. bytes_from pages memory addr j) {y = 0 + k} (omega arith)
bytes_from-add pages memory addr (suc n) k =
    ap (λ t. byte_at memory (translate pages addr) ∷ t)
      (ap (λ a. bytes_from pages memory (suc addr) n ++ bytes_from pages memory a k)
          {x = addr + suc n} {y = suc addr + n} (omega arith)
        ∙ bytes_from-add pages memory (suc addr) n k)
    ∙ ap (λ j. bytes_from pages memory addr j) {x = suc (n + k)} {y = suc n + k} (omega arith)

-- What a read answers and leaves.
pub record Read (m : Bus) (addr len : ℕ) (r : Bus × Bytes) : Type 0 where
  pub answer : r.1 ≡ bytes_from m.pages m.memory addr len
  pub coherent : IsCoherent r.0
  pub same_pages : r.0.pages ≡ m.pages
  pub same_memory : r.0.memory ≡ m.memory

next_bytes :
    (pages : Option (ℕ → Option ℕ)) (memory : ℕ → ℕ) (addr n k : ℕ)
    → addr + (n + k) ≤ u32
    → bytes_from pages memory ((addr + n) % u32) k ≡ bytes_from pages memory (addr + n) k
next_bytes pages memory addr n zero h = refl
next_bytes pages memory addr n (suc k) h =
    ap (λ a. bytes_from pages memory a (suc k)) (mod-eq_of_lt (omega arith))

wrapped_le : (addr n k : ℕ) → addr + (n + k) ≤ u32 → (addr + n) % u32 + k ≤ u32
wrapped_le addr n k h = omega arith

abbrev in_page : ℕ → ℕ → ℕ
in_page addr len = min len (page_size - addr % page_size)

read_from-Read :
    (fuel : ℕ) (m : Bus) (addr len : ℕ)
    → IsCoherent m
    → len ≤ fuel
    → addr + len ≤ u32
    → Read m addr len (read_from fuel m addr len)
unfolding read_from
read_from-Read zero m addr zero c h fits = record {
  answer = refl;
  coherent = c;
  same_pages = refl;
  same_memory = refl;
}
read_from-Read zero m addr (suc len) c h fits = elim h [ ]
read_from-Read (suc fuel) m addr zero c h fits = record {
  answer = refl;
  coherent = c;
  same_pages = refl;
  same_memory = refl;
}
read_from-Read (suc fuel) m addr (suc len) c h fits =
    let n = in_page addr (suc len) in
    let l = resolve_user-Looked m addr c in
    let m' = (resolve_user m addr).0 in
    let k : ℕ = suc len - n in
    let sum : n + k ≡ suc len = omega arith in
    let rest =
      read_from-Read fuel m' ((addr + n) % u32) k l.coherent (omega arith)
        (wrapped_le addr n k (omega arith)) in
    record {
      answer =
          ap (λ o. run_at m.memory o n ++ (read_from fuel m' ((addr + n) % u32) k).1) l.answer
          ∙ ap (λ t. t ++ (read_from fuel m' ((addr + n) % u32) k).1)
              (run_in_page m.pages m.memory addr n (omega arith))
          ∙ ap (λ t. bytes_from m.pages m.memory addr n ++ t)
              (rest.answer
                ∙ ap (λ p. bytes_from p m'.memory ((addr + n) % u32) k) l.same_pages
                ∙ ap (λ b. bytes_from m.pages b ((addr + n) % u32) k) l.same_memory
                ∙ next_bytes m.pages m.memory addr n k (omega arith))
          ∙ bytes_from-add m.pages m.memory addr n k
          ∙ ap (bytes_from m.pages m.memory addr) sum;
      coherent = rest.coherent;
      same_pages = rest.same_pages ∙ l.same_pages;
      same_memory = rest.same_memory ∙ l.same_memory;
    }

-- `peek_user` at one address after the other.
abbrev pub peek_all : Bus → ℕ → ℕ → Bus × Bytes
peek_all m addr zero = (m, [])
peek_all m addr (suc n) =
    let r = peek_user m addr in let rest = peek_all r.0 (suc addr) n in (rest.0, r.1 ∷ rest.1)

peek_all-answer :
    (m : Bus) (addr n : ℕ)
    → IsCoherent m
    → (peek_all m addr n).1 ≡ bytes_from m.pages m.memory addr n
unfolding peek_user
peek_all-answer m addr zero c = refl
peek_all-answer m addr (suc n) c =
    let l = resolve_user-Looked m addr c in
    let m' = (resolve_user m addr).0 in
    ap (λ o. byte_at m.memory o ∷ (peek_all m' (suc addr) n).1) l.answer
    ∙ ap (λ t. byte_at m.memory (translate m.pages addr) ∷ t)
        (peek_all-answer m' (suc addr) n l.coherent
          ∙ ap (λ p. bytes_from p m'.memory (suc addr) n) l.same_pages
          ∙ ap (λ b. bytes_from m.pages b (suc addr) n) l.same_memory)

pub read_user-Read :
    (m : Bus) (addr len : ℕ)
    → IsCoherent m
    → addr + len ≤ u32
    → Read m addr len (read_user m addr len)
unfolding read_user
read_user-Read m addr len c h = read_from-Read len m addr len c (omega arith) h

-- With a coherent cache, `read_user` of a run that does not pass the end of the 32-bit addresses
-- answers what `peek_user` answers at one address after the other.
pub read_user-peek_user :
    (m : Bus) (addr len : ℕ)
    → IsCoherent m
    → addr + len ≤ u32
    → (read_user m addr len).1 ≡ (peek_all m addr len).1
read_user-peek_user m addr len c h =
    (read_user-Read m addr len c h).answer ∙ sym (peek_all-answer m addr len c)
