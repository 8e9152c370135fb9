-- ===== src/Harness/Digest/Window.antt =====
-- What the reports of waterbox/run-native.cpp and waterbox/run-wbx.c say of the address space.
use chimera_core_eka2l.Prelude.{
  ℕ, zero, suc, ◌+◌, ◌-◌, ◌≤◌, ◌<◌, ◌≡◌, ◌⊎◌, inl, inr, refl, sym, ap, ◌∙◌, Option, [], ◌∷◌, ◌++◌,
  arith, length, ◌==◌, if◌then◌else◌, Bytes,
}
use chimera_core_eka2l.Bus.Pages.{bytes_from, bytes_from-add}
use chimera_core_eka2l.Harness.Digest.{
  BusReport, no_bytes, account, bus_size, bus_body_first, bus_body_last, digest_step, digest_all,
  offset_basis,
}

-- How many bytes are not 0.
abbrev pub nonzero : Bytes → ℕ
nonzero [] = 0
nonzero (b ∷ bs) = if b == 0 then nonzero bs else nonzero bs + 1

nonzero-append : (xs ys : Bytes) → nonzero (xs ++ ys) ≡ nonzero xs + nonzero ys
nonzero-append [] ys = omega arith
nonzero-append (x ∷ xs) ys = ground (arith, nonzero-append xs ys)

unfoldable pub account_all : ℕ → Bytes → BusReport → BusReport
account_all addr [] r = r
account_all addr (b ∷ bs) r = account_all (suc addr) bs (account addr b r)

account_all-append :
    (xs ys : Bytes) (addr : ℕ) (r : BusReport)
    → account_all addr (xs ++ ys) r ≡ account_all (addr + length xs) ys (account_all addr xs r)
unfolding account_all
account_all-append [] ys addr r = ap (λ a. account_all a ys r) (omega arith)
account_all-append (x ∷ xs) ys addr r =
    account_all-append xs ys (suc addr) (account addr x r)
    ∙ ap (λ a. account_all a ys (account_all (suc addr) xs (account addr x r))) (omega arith)

account_outside :
    (addr b : ℕ) (r : BusReport)
    → (addr < bus_body_first) ⊎ (bus_body_last ≤ addr)
    → account addr b r ≡ record r { mapped = if b == 0 then r.mapped else r.mapped + 1 }
unfolding account
account_outside addr b r h = ground arith

account_inside :
    (addr b : ℕ) (r : BusReport)
    → bus_body_first ≤ addr
    → addr < bus_body_last
    → account addr b r ≡ record {
      mapped = if b == 0 then r.mapped else r.mapped + 1;
      digest = digest_step r.digest b;
      body = if b == 0 then r.body else r.body + 1;
    }
unfolding account
account_inside addr b r h k = ground arith

BusReport-eq :
    {m n d e b c : ℕ}
    → m ≡ n
    → d ≡ e
    → b ≡ c
    → ◌≡◌ {A = BusReport}
        (record { mapped = m; digest = d; body = b })
        (record { mapped = n; digest = e; body = c })
BusReport-eq p q s = ground arith

counted : (k b : ℕ) (bs : Bytes) → (if b == 0 then k else k + 1) + nonzero bs ≡ k + nonzero (b ∷ bs)
counted k b bs = ground arith

outside_suc :
    (addr n : ℕ)
    → (addr + suc n ≤ bus_body_first) ⊎ (bus_body_last ≤ addr)
    → ((addr < bus_body_first) ⊎ (bus_body_last ≤ addr))
      × ((suc addr + n ≤ bus_body_first) ⊎ (bus_body_last ≤ suc addr))
outside_suc addr n (inl h) = (inl (omega arith), inl (omega arith))
outside_suc addr n (inr h) = (inr h, inr (omega arith))

-- Outside the window only the first count goes on.
account_all_outside :
    (bs : Bytes) (addr : ℕ) (r : BusReport)
    → (addr + length bs ≤ bus_body_first) ⊎ (bus_body_last ≤ addr)
    → account_all addr bs r ≡ record r { mapped = r.mapped + nonzero bs }
unfolding account_all
account_all_outside [] addr r h = BusReport-eq (omega arith) refl refl
account_all_outside (b ∷ bs) addr r h =
    let (now, later) = outside_suc addr (length bs) h in
    ap (account_all (suc addr) bs) (account_outside addr b r now)
    ∙ account_all_outside bs (suc addr) _ later
    ∙ BusReport-eq (counted r.mapped b bs) refl refl

account_all_inside :
    (bs : Bytes) (addr : ℕ) (r : BusReport)
    → bus_body_first ≤ addr
    → addr + length bs ≤ bus_body_last
    → account_all addr bs r ≡ record {
      mapped = r.mapped + nonzero bs;
      digest = digest_all r.digest bs;
      body = r.body + nonzero bs;
    }
unfolding account_all digest_all
account_all_inside [] addr r h k = BusReport-eq (omega arith) refl (omega arith)
account_all_inside (b ∷ bs) addr r h k =
    ap (account_all (suc addr) bs) (account_inside addr b r h (omega arith))
    ∙ account_all_inside bs (suc addr) _ (omega arith) (omega arith)
    ∙ BusReport-eq (counted r.mapped b bs) refl (counted r.body b bs)

-- The report of an address space that maps `pages` to the bytes of `memory`: of all its bytes how
-- many are not 0, and of the window, after the first `a` bytes and before the last `c`, also the digest.
pub report_of : Option (ℕ → Option ℕ) → (ℕ → ℕ) → ℕ → ℕ → ℕ → BusReport
report_of pages memory a b c = record {
  mapped = nonzero (bytes_from pages memory 0 (a + (b + c)));
  digest = digest_all offset_basis (bytes_from pages memory a b);
  body = nonzero (bytes_from pages memory a b);
}

unfoldable pub bus_report : Option (ℕ → Option ℕ) → (ℕ → ℕ) → BusReport
bus_report pages memory =
    report_of pages memory bus_body_first (bus_body_last - bus_body_first)
      (bus_size - bus_body_last)

length-bytes_from :
    (pages : Option (ℕ → Option ℕ)) (memory : ℕ → ℕ) (addr n : ℕ)
    → length (bytes_from pages memory addr n) ≡ n
length-bytes_from pages memory addr zero = refl
length-bytes_from pages memory addr (suc n) = ap suc (length-bytes_from pages memory (suc addr) n)

account_all_windows :
    (xs ys zs : Bytes)
    → length xs ≡ bus_body_first
    → length xs + length ys ≡ bus_body_last
    → account_all 0 (xs ++ (ys ++ zs)) no_bytes ≡ record {
      mapped = nonzero (xs ++ (ys ++ zs));
      digest = digest_all offset_basis ys;
      body = nonzero ys;
    }
account_all_windows xs ys zs first last =
    account_all-append xs (ys ++ zs) 0 no_bytes
    ∙ ap (account_all (0 + length xs) (ys ++ zs))
        (account_all_outside xs 0 no_bytes (inl (omega arith)))
    ∙ account_all-append ys zs (0 + length xs) _
    ∙ ap (account_all (0 + length xs + length ys) zs)
        (account_all_inside ys (0 + length xs) _ (omega arith) (omega arith))
    ∙ account_all_outside zs (0 + length xs + length ys) _ (inr (omega arith))
    ∙ BusReport-eq (omega (arith, nonzero-append xs (ys ++ zs), nonzero-append ys zs)) refl
        (omega arith)

bytes_from-add_three :
    (pages : Option (ℕ → Option ℕ)) (memory : ℕ → ℕ) (a b c : ℕ)
    → bytes_from pages memory 0 a
        ++ (bytes_from pages memory a b ++ bytes_from pages memory (a + b) c)
      ≡ bytes_from pages memory 0 (a + (b + c))
bytes_from-add_three pages memory a b c =
    ap (λ t. bytes_from pages memory 0 a ++ t) (bytes_from-add pages memory a b c)
    ∙ ap (λ i. bytes_from pages memory 0 a ++ bytes_from pages memory i (b + c)) {y = 0 + a}
        (omega arith)
    ∙ bytes_from-add pages memory 0 a (b + c)

pub account_all-report_of :
    (pages : Option (ℕ → Option ℕ)) (memory : ℕ → ℕ) (a b c : ℕ)
    → a ≡ bus_body_first
    → a + b ≡ bus_body_last
    → account_all 0 (bytes_from pages memory 0 (a + (b + c))) no_bytes
      ≡ report_of pages memory a b c
unfolding report_of
account_all-report_of pages memory a b c first last =
    let whole = bytes_from-add_three pages memory a b c in
    ap (λ t. account_all 0 t no_bytes) (sym whole)
    ∙ account_all_windows (bytes_from pages memory 0 a) (bytes_from pages memory a b)
        (bytes_from pages memory (a + b) c) (length-bytes_from pages memory 0 a ∙ first)
        (omega (arith, length-bytes_from pages memory 0 a, length-bytes_from pages memory a b))
    ∙ BusReport-eq (ap nonzero whole) refl refl
