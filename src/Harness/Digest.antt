-- ===== src/Harness/Digest.antt =====
-- The digests that waterbox/run-native.cpp and waterbox/run-wbx.c print of the screen and of the
-- address space: 64-bit FNV-1a, and counts.
pub mod Bits
pub mod Detects
pub mod Window
pub mod Same
use Prim.Native.Nat.{bit_xor}
use chimera_core_eka2l.Prelude.{
  ℕ, zero, suc, ◌+◌, ◌*◌, ◌%◌, ◌^◌, Bool, false, not, ◌&&◌, List, [], ◌∷◌, ltb, leb, ◌==◌,
  if◌then◌else◌,
}
use chimera_core_eka2l.Vclock.{u64}
use chimera_core_eka2l.Bus.{Bus, Host, peek_user, peek_bus}

abbrev pub offset_basis : ℕ
offset_basis = 1469598103934665603

abbrev pub prime : ℕ
prime = 1099511628211

-- `digest ^= v; digest *= 1099511628211ull;`
unfoldable pub digest_step : ℕ → ℕ → ℕ
digest_step digest v = bit_xor digest v * prime % u64

unfoldable pub digest_all : ℕ → List ℕ → ℕ
digest_all digest [] = digest
digest_all digest (v ∷ vs) = digest_all (digest_step digest v) vs

-- `pixel & 0x00FFFFFF`, whether it is not 0.
abbrev pub is_lit : ℕ → Bool
is_lit pixel = not (pixel % 2 ^ 24 == 0)

-- The picture's line of the report: the digest, and how many pixels are lit.
pub record ScreenReport : Type 0 where
  pub digest : ℕ
  pub lit : ℕ

unfoldable pub screen_from : List ℕ → ScreenReport → ScreenReport
unfolding digest_step
screen_from [] r = r
screen_from (pixel ∷ pixels) r =
    screen_from pixels record {
      digest = digest_step r.digest pixel;
      lit = if is_lit pixel then r.lit + 1 else r.lit;
    }

unfoldable pub screen_report : List ℕ → ScreenReport
unfolding screen_from
screen_report pixels = screen_from pixels record { digest = offset_basis; lit = 0 }

abbrev pub bus_size : ℕ
bus_size = 0x04000000

abbrev pub bus_body_first : ℕ
bus_body_first = 0x00701000

abbrev pub bus_body_last : ℕ
bus_body_last = 0x02A00000

-- The bus's lines: how many bytes are not 0, and of the body of the heap the digest and that count.
pub record BusReport : Type 0 where
  pub mapped : ℕ
  pub digest : ℕ
  pub body : ℕ

abbrev pub no_bytes : BusReport
no_bytes = record { mapped = 0; digest = offset_basis; body = 0 }

-- The body of both loops.
unfoldable pub account : ℕ → ℕ → BusReport → BusReport
unfolding digest_step
account addr byte r =
    let seen = record r { mapped = if byte == 0 then r.mapped else r.mapped + 1 } in
    if leb bus_body_first addr && ltb addr bus_body_last
    then record seen {
      digest = digest_step r.digest byte;
      body = if byte == 0 then r.body else r.body + 1;
    }
    else seen

-- The native reference's loop, through `peek_user`: the rounds left, and the address.
unfoldable pub native_from : ℕ → ℕ → Bus → BusReport → Bus × BusReport
unfolding account
native_from zero addr m r = (m, r)
native_from (suc n) addr m r =
    let p = peek_user m addr in native_from n (suc addr) p.0 (account addr p.1 r)

unfoldable pub native_bus : Bus → Bus × BusReport
unfolding native_from
native_bus m = native_from bus_size 0 m no_bytes

-- The sandbox driver's, through `PeekBus(0, addr)`; the cast to a byte changes nothing.
unfoldable pub wbx_from : ℕ → ℕ → Host → BusReport → Host × BusReport
unfolding account
wbx_from zero addr h r = (h, r)
wbx_from (suc n) addr h r =
    let p = peek_bus h 0 false addr in wbx_from n (suc addr) p.0 (account addr (p.1 % 256) r)

unfoldable pub wbx_bus : Host → Host × BusReport
unfolding wbx_from
wbx_bus h = wbx_from bus_size 0 h no_bytes
