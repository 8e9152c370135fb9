-- ===== src/Install/Files.antt =====
-- What the installers of waterbox/machine.cpp leave on the machine's drives, for any filesystem
-- behind the emulator's `io_system` that keeps what is written to it.
use chimera_core_eka2l.Prelude.{
  ℕ, ◌%◌, ◌*◌, ◌≡◌, ◌<◌, ◌≤◌, take, take_all, ==_iff, Bool-cases, refl, ap, sym, ◌∙◌, subst, Bool,
  true, false, Option, none, some, [], Bytes, ◌==◌, if◌then◌else◌, length, arith, Option-cases, inl,
  inr,
}
use native.Mathlib.Nat.{mod-eq_of_lt, le_refl}
use chimera_core_eka2l.Install.{Emulator, HostFiles, u32, put_file}

-- The contents of the drives: the file at a path, if there is one.
abbrev pub Contents : Type 0
Contents = Bytes → Option Bytes

-- `same` says which paths name the same file: the filesystems do not tell cases apart.
abbrev pub with_file : (Bytes → Bytes → Bool) → Bytes → Bytes → Contents → Contents
with_file same path content m q = if same path q then some content else m q

-- What the code relies on in `io_system`, `file_at` being the contents of its drives, `path_of` the path
-- that a handle was opened at, and `through dir q` whether the way of the directory `dir` goes through
-- the entry `q`: making directories keeps the files off their way; what opens for writing alone is
-- there and empty, and what does not open changes no file; a write to an empty file through its handle
-- stores the bytes that it says it wrote, which may be fewer than it was given; and nothing else
-- changes any file.
pub record IsStore {ℓ} {S F : Type ℓ} (e : Emulator S F) (same through : Bytes → Bytes → Bool)
    (file_at : S → Contents) (path_of : F → Bytes) : Type ℓ where
  pub same_refl : (path : Bytes) → same path path ≡ true
  pub create_keeps :
      (dir : Bytes) (s : S) (q : Bytes)
      → through dir q ≡ false
      → file_at (e.create_directories dir s) q ≡ file_at s q
  pub refused :
      (path : Bytes) (s : S)
      → (e.open_file path s).1 ≡ none
      → (q : Bytes) → file_at (e.open_file path s).0 q ≡ file_at s q
  pub opened :
      (path : Bytes) (s : S) (f : F)
      → (e.open_file path s).1 ≡ some f
      → (path_of f ≡ path)
        × ((q : Bytes) → file_at (e.open_file path s).0 q ≡ with_file same path [] (file_at s) q)
  pub filled :
      (f : F) (content : Bytes) (size count : ℕ) (s : S)
      → file_at s (path_of f) ≡ some []
      → size * count ≡ length content
      → ((e.write_file f content size count s).1 ≤ length content)
        × ((q : Bytes)
            → file_at (e.write_file f content size count s).0 q
              ≡ with_file same
                  (path_of f)
                  (take (e.write_file f content size count s).1 content)
                  (file_at s)
                  q)
  pub closed : (f : F) (s : S) (q : Bytes) → file_at (e.close f s) q ≡ file_at s q

with_file_twice :
    (same : Bytes → Bytes → Bool) (path content : Bytes) (m : Contents) (q : Bytes)
    → with_file same path content (with_file same path [] m) q ≡ with_file same path content m q
with_file_twice same path content m q = ground arith

module _ {ℓ} {S F : Type ℓ} (e : Emulator S F) (same through : Bytes → Bytes → Bool)
    (file_at : S → Contents) (path_of : F → Bytes) where
  module _ (w : IsStore e same through file_at path_of) where
    -- An open file that is written to and closed holds what the write says it wrote, and nothing else
    -- changed.
    pub filled_file :
        (path content : Bytes) (s : S) (f : F) (size count : ℕ)
        → (e.open_file path s).1 ≡ some f
        → size * count ≡ length content
        → let r = e.write_file f content size count (e.open_file path s).0 in
          (r.1 ≤ length content)
          × ((q : Bytes)
              → file_at (e.close f r.0) q ≡ with_file same path (take r.1 content) (file_at s) q)
    filled_file path content s f size count found fits =
        let o = w.opened path s f found in
        let there : file_at (e.open_file path s).0 (path_of f) ≡ some [] =
          ap (file_at (e.open_file path s).0) o.0 ∙ o.1 path ∙ rw (w.same_refl path) refl in
        let l = w.filled f content size count (e.open_file path s).0 there fits in
        let got = take (e.write_file f content size count (e.open_file path s).0).1 content in
        (
          l.0,
          λ q.
              w.closed f (e.write_file f content size count (e.open_file path s).0).0 q
              ∙ l.1 q
              ∙ ap (λ p. with_file same p got (file_at (e.open_file path s).0) q) o.0
              ∙ ap (λ t. if same path q then some got else t) (o.1 q)
              ∙ with_file_twice same path got (file_at s) q,
        )

  -- The write of `put_file`.
  abbrev pub put_write : Bytes → Bytes → F → S → S × ℕ
  put_write path content f s =
      e.write_file f content (length content % u32) 1 (e.open_file path s).0

  -- How `put_file` ends: the host has no such file, or the path does not open, and no file is changed;
  -- or the file at the path holds what the write says it wrote, all of the host's file for the answer
  -- true and less for false.
  pub data Put (host : HostFiles) (machine_path host_path : Bytes) (s : S) (r : S × Bool)
      : Type ℓ where
    missing : host host_path ≡ none → r ≡ (s, false) → Put host machine_path host_path s r
    refused :
        (content : Bytes)
        → host host_path ≡ some content
        → (e.open_file (e.utf8_to_ucs2 machine_path) s).1 ≡ none
        → r.1 ≡ false
        → ((q : Bytes) → file_at r.0 q ≡ file_at s q)
        → Put host machine_path host_path s r
    short :
        (content : Bytes) (f : F)
        → host host_path ≡ some content
        → (e.open_file (e.utf8_to_ucs2 machine_path) s).1 ≡ some f
        → (put_write (e.utf8_to_ucs2 machine_path) content f s).1 < length content
        → r.1 ≡ false
        → ((q : Bytes)
            → file_at r.0 q
              ≡ with_file same
                  (e.utf8_to_ucs2 machine_path)
                  (take (put_write (e.utf8_to_ucs2 machine_path) content f s).1 content)
                  (file_at s)
                  q)
        → Put host machine_path host_path s r
    whole :
        (content : Bytes) (f : F)
        → host host_path ≡ some content
        → (e.open_file (e.utf8_to_ucs2 machine_path) s).1 ≡ some f
        → r.1 ≡ true
        → ((q : Bytes)
            → file_at r.0 q ≡ with_file same (e.utf8_to_ucs2 machine_path) content (file_at s) q)
        → Put host machine_path host_path s r

  put_taken :
      (host : HostFiles) (machine_path host_path content : Bytes) (s : S) (f : F)
      → host host_path ≡ some content
      → (e.open_file (e.utf8_to_ucs2 machine_path) s).1 ≡ some f
      → let r = put_write (e.utf8_to_ucs2 machine_path) content f s in
        put_file e host machine_path host_path s ≡ (e.close f r.0, r.1 == length content)
  unfolding put_file
  put_taken host machine_path host_path content s f found opened = ground (arith, found, opened)

  put_refused :
      (host : HostFiles) (machine_path host_path content : Bytes) (s : S)
      → host host_path ≡ some content
      → (e.open_file (e.utf8_to_ucs2 machine_path) s).1 ≡ none
      → put_file e host machine_path host_path s
        ≡ ((e.open_file (e.utf8_to_ucs2 machine_path) s).0, false)
  unfolding put_file
  put_refused host machine_path host_path content s found closed = ground (arith, found, closed)

  put_missing :
      (host : HostFiles) (machine_path host_path : Bytes) (s : S)
      → host host_path ≡ none
      → put_file e host machine_path host_path s ≡ (s, false)
  unfolding put_file
  put_missing host machine_path host_path s gone = ground (arith, gone)

  -- Where the drives keep what is written and the host's file has fewer than 2^32 bytes: `put_file`
  -- answers false and changes no file where the host has no such file or the path does not open; it
  -- answers true where the whole of the host's file was written, and the file at the path is that; and
  -- it answers false where less was written, and the file at the path is just that much of it. No other
  -- file is changed.
  pub put_file-Put :
      IsStore e same through file_at path_of
      → (host : HostFiles) (machine_path host_path : Bytes) (s : S)
      → ((content : Bytes) → host host_path ≡ some content → length content < u32)
      → Put host machine_path host_path s (put_file e host machine_path host_path s)
  put_file-Put w host machine_path host_path s small = elim (Option-cases (host host_path)) [
    | inl gone ↦ missing gone (put_missing host machine_path host_path s gone)
    | inr (content, found) ↦
        let path = e.utf8_to_ucs2 machine_path in
        elim (Option-cases (e.open_file path s).1) [
          | inl closed ↦
              subst (Put host machine_path host_path s)
                (sym (put_refused host machine_path host_path content s found closed))
                (refused content found closed refl (w.refused path s closed))
          | inr (f, there) ↦
              let size : length content % u32 ≡ length content =
                mod-eq_of_lt (small content found) in
              let t =
                filled_file w path content s f (length content % u32) 1 there
                  (omega (arith, size)) in
              let n = (put_write path content f s).1 in
              subst (Put host machine_path host_path s)
                (sym (put_taken host machine_path host_path content s f found there))
                (elim (Bool-cases (n == length content)) [
                  | inl all ↦ whole content f found there all (λ q.
                      t.1 q
                      ∙ ap (λ c. with_file same path c (file_at s) q)
                          (ap (λ k. take k content) ((==_iff n (length content)).0 all)
                            ∙ take_all (length content) content (le_refl _)))
                  | inr less ↦ short content f found there (ground (arith, less, t.0)) less t.1
                ])
        ]
  ]
