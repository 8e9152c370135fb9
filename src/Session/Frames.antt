-- ===== src/Session/Frames.antt =====
-- What `FrameAdvance` (waterbox/wbx-entry.cpp) keeps, and that time passes.
use native.Mathlib.Nat.{mul-le-mul_right}
use chimera_core_eka2l.Prelude.{
  ℕ, zero, suc, ◌+◌, ◌*◌, ◌/◌, ◌≤◌, ◌<◌, ◌≡◌, refl, ap, sym, ◌∙◌, subst, Bool, true, Option, none,
  some, List, [], ◌∷◌, ◌++◌, length, drop, All, length-append, length-drop, length-replicate, arith,
  Bool-cases, inl, inr,
}
use chimera_core_eka2l.Vclock.{u64}
use chimera_core_eka2l.Run.{u32}
use chimera_core_eka2l.Run.Progress.{IsRunning, IsPaced, suc_mul}
use chimera_core_eka2l.Audio.{ℤ, pos, Stream}
use chimera_core_eka2l.Audio.Mix.{IsSample, IsOutput, All-replicate, render-IsOutput}
use chimera_core_eka2l.Screen.{Picture, Display}
use chimera_core_eka2l.Screen.Fits.{Fits, read_screen-Fits}
use chimera_core_eka2l.Phone.{Phone, frame_us, run_frame}
use chimera_core_eka2l.Phone.Frames.{run_frame-Stepped}
use chimera_core_eka2l.Session.{
  Guest, Session, max_width, max_height, max_samples, sample_rate, copied, rendered, render_audio,
  fits, show, sound_of, picture_of, heard, after_run, advanced, frame_advance,
}

module _ {ℓ} {A : Type ℓ} where
  length-copied :
      (from onto : List A) → length from ≤ length onto → length (copied from onto) ≡ length onto
  length-copied from onto h =
      omega (arith, length-append from (drop (length from) onto), length-drop (length from) onto, h)

All-append : (xs ys : List ℤ) → All IsSample xs → All IsSample ys → All IsSample (xs ++ ys)
All-append [] ys a b = b
All-append (x ∷ xs) ys (p, a) b = (p, All-append xs ys a b)

All-drop : (n : ℕ) (xs : List ℤ) → All IsSample xs → All IsSample (drop n xs)
All-drop zero xs a = a
All-drop (suc n) [] a = a
All-drop (suc n) (x ∷ xs) (p, a) = All-drop n xs a

-- What the host may read: the picture's size is one that fits, its buffer is whole, and the sound is
-- at most the buffer's, of 16-bit samples.
pub record IsReadable {ℓ} {S : Type ℓ} (s : Session S) : Type 0 where
  pub wide : s.video_width ≤ max_width
  pub high : s.video_height ≤ max_height
  pub video : length s.video ≡ max_width * max_height
  pub few : s.audio_samples ≤ max_samples
  pub audio : IsOutput (max_samples * 2) s.audio

module _ {ℓ} {S F V : Type ℓ} (g : Guest S F V) where
  rendered-IsOutput :
      (frames : ℕ) (o : Option (List (Stream V))) (w : S)
      → IsOutput (frames * 2) (rendered g frames o w).1
  rendered-IsOutput frames none w = record {
    size = length-replicate (frames * 2) (pos 0);
    range = All-replicate (frames * 2);
  }
  rendered-IsOutput frames (some streams) w = render-IsOutput g.scaled sample_rate frames streams

  copied-IsOutput :
      (n m : ℕ) (from onto : List ℤ)
      → n ≤ m
      → IsOutput n from
      → IsOutput m onto
      → IsOutput m (copied from onto)
  copied-IsOutput n m from onto few a b = record {
    size = length-copied from onto (omega (arith, a.size, b.size, few)) ∙ b.size;
    range = All-append from (drop (length from) onto) a.range (All-drop (length from) onto b.range);
  }

  area : (w h : ℕ) → w ≤ max_width → h ≤ max_height → w * h ≤ max_width * max_height
  area w h a b = omega (arith, mul-le-mul_right {m = w} {n = max_width} h a, b)

  fits_there :
      (pic : Picture) (there : Bool)
      → fits g (pic, there) ≡ true
      → (there ≡ true) × ((pic.width ≤ max_width) × (pic.height ≤ max_height))
  fits_there pic there h = ground (arith, h)

  show-IsReadable :
      (d : Display) (s : Session S) (r : Picture × Bool)
      → IsReadable s
      → Fits d r
      → IsReadable (show g s r)
  show-IsReadable d s (pic, there) k sized = elim (Bool-cases (fits g (pic, there))) [
    | inl taken ↦
        let f = fits_there pic there taken in
        rw taken (record {
          wide = f.1.0;
          high = f.1.1;
          video =
              length-copied pic.out s.video
                (omega (arith, sized.size f.0, area pic.width pic.height f.1.0 f.1.1, k.video))
              ∙ k.video;
          few = k.few;
          audio = k.audio;
        })
    | inr left ↦
        rw left
          (record { wide = k.wide; high = k.high; video = k.video; few = k.few; audio = k.audio })
  ]

  show_machine :
      (s : Session S) (r : Picture × Bool)
      → ((show g s r).machine.machine.clock ≡ s.machine.machine.clock)
        × ((show g s r).inited ≡ s.inited)
  show_machine s (pic, there) = elim (Bool-cases (fits g (pic, there))) [
    | inl taken ↦ rw taken (refl, refl)
    | inr left ↦ rw left (refl, refl)
  ]

  after_run-IsReadable : (s : Session S) (p : Phone S) → IsReadable s → IsReadable (after_run g s p)
  unfolding render_audio
  after_run-IsReadable s p k =
      show-IsReadable (g.display (sound_of g p).0).1 (heard g s p) (picture_of g s p)
        (record {
          wide = k.wide;
          high = k.high;
          video = k.video;
          few = omega arith;
          audio =
              copied-IsOutput (sample_rate / 60 * 2) (max_samples * 2) (sound_of g p).1 s.audio
                (omega arith)
                (rendered-IsOutput (sample_rate / 60) (g.streams p.machine.world) p.machine.world)
                k.audio;
        })
        (read_screen-Fits (g.display (sound_of g p).0).1
          record { out = s.screen; width = 0; height = 0 })

  -- `n` frames, none where the fuel runs out in one.
  abbrev pub advance_from :
      (Session S → Option (Session S)) → Option (Session S) → Option (Session S)
  advance_from rest none = none
  advance_from rest (some s) = rest s

  unfoldable pub advance_all : ℕ → ℕ → Session S → Option (Session S)
  advance_all fuel zero s = some s
  advance_all fuel (suc n) s = advance_from (advance_all fuel n) (frame_advance g fuel s)

  pub frame_advance_on :
      (fuel : ℕ) (s : Session S)
      → s.inited ≡ true
      → frame_advance g fuel s ≡ advanced g s (run_frame g.sys fuel s.machine)
  unfolding frame_advance
  frame_advance_on fuel s on = rw on refl

-- What frames leave: a session that the host may read, whose clock has gone on by a frame for each.
pub record Advanced {ℓ} {S : Type ℓ} (n : ℕ) (s : Session S) (o : Option (Session S)) : Type ℓ where
  pub session : Session S
  pub result : o ≡ some session
  pub inited : session.inited ≡ true
  pub readable : IsReadable session
  pub later : s.machine.machine.clock.now_us + n * frame_us ≤ session.machine.machine.clock.now_us

module _ {ℓ} {S F V : Type ℓ} (g : Guest S F V) (r quota fuel : ℕ)
    (paced : IsPaced quota g.sys.loop) (few : quota < u32) (enough : frame_us * r ≤ fuel) where
  -- For every emulator whose loop reports at most `quota` instructions a call, with fuel for a frame
  -- and room on the clock: any number of frames of an initialised session ends, with the clock later by 16666 microseconds a frame at least, a picture of
  -- at most 640 by 640 in a buffer of its size, and at most 2048 frames of 16-bit sound.
  pub advance_all-Advanced :
      (n : ℕ) (s : Session S)
      → s.inited ≡ true
      → IsReadable s
      → IsRunning r s.machine.machine.clock
      → s.machine.machine.clock.now_us + r + n * (frame_us + quota * 1000000) < u64
      → Advanced n s (advance_all g fuel n s)
  unfolding advance_all
  advance_all-Advanced zero s on k run room = record {
    session = s;
    result = refl;
    inited = on;
    readable = k;
    later = omega arith;
  }
  advance_all-Advanced (suc n) s on k run room =
      let step : ℕ = frame_us + quota * 1000000 in
      let grow = suc_mul n step in
      let f =
        run_frame-Stepped g.sys r quota fuel paced few enough s.machine run (omega (arith, grow)) in
      let t = after_run g s f.phone in
      let ran = frame_advance_on g fuel s on ∙ ap (advanced g s) f.result in
      let m = show_machine g (heard g s f.phone) (picture_of g s f.phone) in
      let rest =
        advance_all-Advanced n t (m.1 ∙ on) (after_run-IsReadable g s f.phone k)
          (subst (IsRunning r) (sym m.0) f.running)
          (omega (arith, grow, f.near, ap (λ c. c.now_us) m.0)) in
      record {
        session = rest.session;
        result = ap (advance_from g (advance_all g fuel n)) ran ∙ rest.result;
        inited = rest.inited;
        readable = rest.readable;
        later = omega (arith, rest.later, f.later, ap (λ c. c.now_us) m.0, suc_mul n frame_us);
      }
