-- ===== src/Install/Card/Drive.antt =====
-- What `install_card` (waterbox/machine.cpp) leaves on the machine's drives.
use native.Mathlib.Nat.{mod-eq_of_lt}
use chimera_core_eka2l.Prelude.{
  ℕ, suc, ◌+◌, ◌%◌, ◌≡◌, ◌≤◌, ◌<◌, refl, ap, sym, ◌∙◌, subst, Bool, true, false, Option, none, some,
  List, [], ◌∷◌, Bytes, if◌then◌else◌, is_empty, length, take, arith, Option-cases, inl, inr,
}
use chimera_core_eka2l.Install.{Emulator, u32}
use chimera_core_eka2l.Install.Files.{Contents, with_file, IsStore, filled_file}
use chimera_core_eka2l.Install.Card.{
  Entry, Archive, find_prefix, selected, target_of, copy_entry, step_entry, copy_entries, copy_card,
  copy_listed, install_card,
}
use chimera_core_eka2l.Install.Card.Selected.{IsFile, selected-some, selected_file}
use chimera_core_eka2l.Install.Card.Root.{Root, find_prefix-Root}

module _ {ℓ} {S F : Type ℓ} (e : Emulator S F) (same through : Bytes → Bytes → Bool)
    (file_at : S → Contents) (path_of : F → Bytes) where
  -- Where a file of the card goes, and the state in which its directories are made.
  abbrev pub path_for : Bytes → Bytes
  path_for relative = e.utf8_to_ucs2 (target_of relative)

  abbrev pub dir_for : Bytes → Bytes
  dir_for relative = e.utf8_to_ucs2 (e.file_directory (target_of relative))

  abbrev pub opened_for : Bytes → S → S × Option F
  opened_for relative s =
      e.open_file (path_for relative) (e.create_directories (dir_for relative) s)

  -- How many bytes of the file the write says it wrote; an empty file needs none.
  abbrev pub written_for : Bytes → Bytes → F → S → ℕ
  written_for relative content f s =
      if is_empty content
      then 0
      else (e.write_file f content 1 (length content % u32) (opened_for relative s).0).1

  -- One file laid on the drives: the bytes that were written are at its path, and of all others those
  -- are as they were that the way to its directory does not go through.
  pub record LaidOne (relative content : Bytes) (f : F) (s u : S) : Type ℓ where
    pub opened : (opened_for relative s).1 ≡ some f
    pub within : written_for relative content f s ≤ length content
    pub there :
        (q : Bytes)
        → same (path_for relative) q ≡ true
        → file_at u q ≡ some (take (written_for relative content f s) content)
    pub others :
        (q : Bytes)
        → same (path_for relative) q ≡ false
        → through (dir_for relative) q ≡ false
        → file_at u q ≡ file_at s q

  -- The entries laid on the drives, one after the other, from one state to another, with the number of
  -- the files that opened.
  pub data Laid (a : Archive) (prefix : Bytes) : List Entry → S → S → ℕ → Type ℓ where
    nothing : (s : S) → Laid a prefix [] s s 0
    no_file :
        (entry : Entry) (entries : List Entry) (s t : S) (n : ℕ)
        → ((relative content : Bytes) → ¬ IsFile a prefix entry relative content)
        → Laid a prefix entries s t n
        → Laid a prefix (entry ∷ entries) s t n
    unopened :
        (entry : Entry) (entries : List Entry) (relative content : Bytes) (s u t : S) (n : ℕ)
        → IsFile a prefix entry relative content
        → (opened_for relative s).1 ≡ none
        → ((q : Bytes) → through (dir_for relative) q ≡ false → file_at u q ≡ file_at s q)
        → Laid a prefix entries u t n
        → Laid a prefix (entry ∷ entries) s t n
    laid :
        (entry : Entry) (entries : List Entry) (relative content : Bytes) (f : F) (s u t : S)
        (n : ℕ)
        → IsFile a prefix entry relative content
        → LaidOne relative content f s u
        → Laid a prefix entries u t n
        → Laid a prefix (entry ∷ entries) s t (suc n)

  -- How `install_card` ends.
  pub data CardEnds (a : Archive) (s : S) (r : S × ℕ) : Type ℓ where
    no_list : a.entries ≡ none → r ≡ (s, 0) → CardEnds a s r
    no_root :
        (entries : List Entry)
        → a.entries ≡ some entries
        → find_prefix a.lowercase_string entries ≡ none
        → r ≡ (s, 0)
        → CardEnds a s r
    copied :
        (entries : List Entry) (prefix : Bytes)
        → a.entries ≡ some entries
        → Root a.lowercase_string entries prefix
        → Laid a prefix entries s r.0 r.1
        → CardEnds a s r

  module _ (w : IsStore e same through file_at path_of) where
    laid_at :
        (relative content : Bytes) (f : F) (s u : S)
        → (opened_for relative s).1 ≡ some f
        → written_for relative content f s ≤ length content
        → ((q : Bytes)
            → file_at u q
              ≡ with_file same
                  (path_for relative)
                  (take (written_for relative content f s) content)
                  (file_at (e.create_directories (dir_for relative) s))
                  q)
        → LaidOne relative content f s u
    laid_at relative content f s u opened within h = record {
      opened = opened;
      within = within;
      there = λ q at. h q ∙ rw at refl;
      others = λ q other off. h q ∙ rw other (w.create_keeps (dir_for relative) s q off);
    }

    -- What `copy_entry` makes of a file that opens.
    copied_entry : Bytes → Bytes → F → S → S
    copied_entry relative content f s = e.close f (
        if is_empty content
        then (opened_for relative s).0
        else (e.write_file f content 1 (length content % u32) (opened_for relative s).0).0)

    copied_entry-LaidOne :
        (relative content : Bytes) (f : F) (s : S)
        → length content < u32
        → (opened_for relative s).1 ≡ some f
        → LaidOne relative content f s (copied_entry relative content f s)
    unfolding copied_entry
    copied_entry-LaidOne relative [] f s small opened =
        let made = e.create_directories (dir_for relative) s in
        laid_at relative [] f s (e.close f (opened_for relative s).0) opened (omega arith) (λ q.
          w.closed f (opened_for relative s).0 q ∙ (w.opened (path_for relative) made f opened).1 q)
    copied_entry-LaidOne relative (c ∷ content) f s small opened =
        let made = e.create_directories (dir_for relative) s in
        let count : length (c ∷ content) % u32 ≡ length (c ∷ content) = mod-eq_of_lt small in
        let r =
          filled_file e same through file_at path_of w (path_for relative) (c ∷ content) made f 1
            (length (c ∷ content) % u32) opened (omega (arith, count)) in
        laid_at relative (c ∷ content) f s _ opened r.0 r.1

    copy_entry-some :
        (relative content : Bytes) (s : S) (f : F)
        → (opened_for relative s).1 ≡ some f
        → copy_entry e relative content s ≡ (copied_entry relative content f s, true)
    unfolding copy_entry copied_entry
    copy_entry-some relative content s f opened = ground (arith, opened)

    copy_entry-none :
        (relative content : Bytes) (s : S)
        → (opened_for relative s).1 ≡ none
        → copy_entry e relative content s ≡ ((opened_for relative s).0, false)
    unfolding copy_entry
    copy_entry-none relative content s closed = ground (arith, closed)

    -- The loop from any state and count.
    copy_entries-Laid :
        (a : Archive) (prefix : Bytes) (entries : List Entry) (s : S) (written : ℕ)
        → ((path content : Bytes) → a.content path ≡ some content → length content < u32)
        → (n : ℕ) × ((copy_entries e a prefix entries (s, written)).1 ≡ written + n)
          × Laid a prefix entries s (copy_entries e a prefix entries (s, written)).0 n
    unfolding copy_entries
    copy_entries-Laid a prefix [] s written small = (0, omega arith, nothing s)
    copy_entries-Laid a prefix (entry ∷ entries) s written small =
        let after = λ (o : Option (Bytes × Bytes)).
          copy_entries e a prefix entries (step_entry e o (s, written)) in
        elim (Option-cases (selected a prefix entry)) [
          | inl skipped ↦
              let (n, count, rest) = copy_entries-Laid a prefix entries s written small in
              let at = ap after skipped in
              (
                n,
                ap (λ t. t.1) at ∙ count,
                no_file entry entries s _ n
                    (λ relative content f.
                      let taken = selected_file a prefix entry relative content f in cc)
                    (subst (λ t. Laid a prefix entries s t.0 n) (sym at) rest),
              )
          | inr ((relative, content), taken) ↦
              let file = selected-some a prefix entry relative content taken in
              elim (Option-cases (opened_for relative s).1) [
                | inl closed ↦
                    let made = e.create_directories (dir_for relative) s in
                    let u = (opened_for relative s).0 in
                    let (n, count, rest) = copy_entries-Laid a prefix entries u written small in
                    let at : after (selected a prefix entry)
                        ≡ copy_entries e a prefix entries (u, written) =
                      ap after taken
                      ∙ ap
                          (λ r.
                            copy_entries e a prefix entries
                              (r.0, if r.1 then written + 1 else written))
                          (copy_entry-none relative content s closed) in
                    (
                      n,
                      ap (λ t. t.1) at ∙ count,
                      unopened entry entries relative content s u _ n file closed
                          (λ q off.
                            w.refused (path_for relative) made closed q
                            ∙ w.create_keeps (dir_for relative) s q off)
                          (subst (λ t. Laid a prefix entries u t.0 n) (sym at) rest),
                    )
                | inr (f, opened) ↦
                    let u = copied_entry relative content f s in
                    let (n, count, rest) =
                      copy_entries-Laid a prefix entries u (written + 1) small in
                    let at : after (selected a prefix entry)
                        ≡ copy_entries e a prefix entries (u, written + 1) =
                      ap after taken
                      ∙ ap
                          (λ r.
                            copy_entries e a prefix entries
                              (r.0, if r.1 then written + 1 else written))
                          (copy_entry-some relative content s f opened) in
                    (
                      suc n,
                      ap (λ t. t.1) at ∙ count ∙ omega arith,
                      laid entry entries relative content f s u _ n file
                          (copied_entry-LaidOne relative content f s
                            (small entry.path content file.read) opened)
                          (subst (λ t. Laid a prefix entries u t.0 n) (sym at) rest),
                    )
              ]
        ]

    copy_card-CardEnds :
        (a : Archive) (entries : List Entry) (prefix : Option Bytes) (s : S)
        → ((path content : Bytes) → a.content path ≡ some content → length content < u32)
        → a.entries ≡ some entries
        → find_prefix a.lowercase_string entries ≡ prefix
        → CardEnds a s (copy_card e a entries prefix s)
    copy_card-CardEnds a entries none s small listed h = no_root entries listed h refl
    copy_card-CardEnds a entries (some prefix) s small listed h =
        let (n, count, rest) = copy_entries-Laid a prefix entries s 0 small in
        copied entries prefix listed (find_prefix-Root a.lowercase_string entries prefix h) (
          subst (Laid a prefix entries s (copy_entries e a prefix entries (s, 0)).0)
            (omega (arith, count)) rest)

    copy_listed-CardEnds :
        (a : Archive) (entries : Option (List Entry)) (s : S)
        → ((path content : Bytes) → a.content path ≡ some content → length content < u32)
        → a.entries ≡ entries
        → CardEnds a s (copy_listed e a entries s)
    copy_listed-CardEnds a none s small h = no_list h refl
    copy_listed-CardEnds a (some entries) s small h =
        copy_card-CardEnds a entries (find_prefix a.lowercase_string entries) s small h refl

    -- Where the drives keep what is written and no entry has 2^32 bytes: `install_card` answers 0 and
    -- does nothing where the archive cannot be listed or no root is found in it; else it goes through
    -- the archive's entries in order, and of each that is a file below a "system/"'s root and can be
    -- read, it makes the directories and opens the file at "E:" and its path below the root; if that
    -- does not open, no file is changed that the way to its directory does not go through, and else the
    -- file there holds what the write says it wrote of the content, and so do the others. It answers
    -- how many of the files opened.
    pub install_card-CardEnds :
        (a : Archive) (s : S)
        → ((path content : Bytes) → a.content path ≡ some content → length content < u32)
        → CardEnds a s (install_card e a s)
    unfolding install_card
    install_card-CardEnds a s small = copy_listed-CardEnds a a.entries s small refl
