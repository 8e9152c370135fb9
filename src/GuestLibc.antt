-- ===== src/GuestLibc.antt =====
-- waterbox/guest-syscalls.cpp: what the sandbox's C library is given in place of what it lacks.
-- The system calls below it and the constants of its headers are parameters. -1 is none.
use chimera_core_eka2l.Prelude.{
  ℕ, ◌-◌, ◌/◌, ◌%◌, Bool, ◌||◌, Option, none, some, [], ◌∷◌, Bytes, ltb, ◌==◌, if◌then◌else◌,
}

-- `o_creat` and `o_cloexec` have one bit each, the value of a power of two; `openat` is the raw
-- system call in the working directory; `stat` is the library's.
pub record Kernel {ℓ} (W A : Type ℓ) : Type ℓ where
  pub o_creat : ℕ
  pub o_cloexec : ℕ
  pub openat : Bytes → ℕ → ℕ → W → W × Option ℕ
  pub stat : Bytes → W → W × A
  pub f_getfd : ℕ
  pub f_getfl : ℕ
  pub f_setfd : ℕ
  pub f_setfl : ℕ

-- `errno`, where a call sets it.
pub data Errno : Type 0 where
  einval erange : Errno

-- Of a value of one bit: whether a word has it, and the word without it.
unfoldable pub has_bit : ℕ → ℕ → Bool
has_bit flags bit = flags / bit % 2 == 1

unfoldable pub without_bit : ℕ → ℕ → ℕ
unfolding has_bit
without_bit flags bit = if has_bit flags bit then flags - bit else flags

module _ {ℓ} {W A : Type ℓ} (k : Kernel W A) where
  -- `open`. The mode is read from the arguments only where the file may be made.
  unfoldable pub sandbox_open : Bytes → ℕ → ℕ → W → W × Option ℕ
  unfolding has_bit without_bit
  sandbox_open path flags mode w =
      k.openat path (without_bit flags k.o_cloexec) (if has_bit flags k.o_creat then mode else 0) w

  unfoldable pub lstat : Bytes → W → W × A
  lstat path w = k.stat path w

  -- The descriptor is not looked at.
  unfoldable pub fcntl : ℕ → ℕ → Option ℕ × Option Errno
  fcntl fd cmd =
      if cmd == k.f_getfd || cmd == k.f_getfl || cmd == k.f_setfd || cmd == k.f_setfl
      then (some 0, none)
      else (none, some einval)

-- The buffer is none for a null pointer; what is written into it, or the error.
unfoldable pub getcwd : Option ℕ → Option Bytes × Option Errno
getcwd none = (none, some einval)
getcwd (some size) = if ltb size 2 then (none, some erange) else (some (b'/' ∷ 0 ∷ []), none)

-- Seconds and nanoseconds, where the caller has a place for them.
unfoldable pub clock_getres : ℕ → Bool → Option (ℕ × ℕ) × ℕ
clock_getres clock res = (if res then some (0, 1) else none, 0)

unfoldable pub mkdir : Bytes → ℕ → ℕ
mkdir path mode = 0

unfoldable pub mkdirat : ℕ → Bytes → ℕ → ℕ
mkdirat fd path mode = 0

unfoldable pub rmdir : Bytes → ℕ
rmdir path = 0

unfoldable pub chdir : Bytes → ℕ
chdir path = 0

unfoldable pub chmod : Bytes → ℕ → ℕ
chmod path mode = 0

unfoldable pub umask : ℕ → ℕ
umask mask = 0
