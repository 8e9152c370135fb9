-- ===== src/Harness/Wbx/Rerecord.antt =====
-- `--rerecord` of waterbox/run-wbx.c: the machine saved and loaded before every frame.
use chimera_core_eka2l.Prelude.{
  ℕ, zero, suc, ◌+◌, ◌*◌, ◌%◌, ◌<◌, ◌≡◌, refl, ap, ◌∙◌, Bool, true, false, Option, none, some, List,
  [], ◌∷◌, Bytes, length, arith,
}
use chimera_core_eka2l.Vclock.{u64}
use chimera_core_eka2l.Audio.{ℤ}
use chimera_core_eka2l.Savestate.{StateBuf, state_write, for_save, for_load}
use chimera_core_eka2l.Savestate.RoundTrip.{write_all, concat, write_all-Written}
use chimera_core_eka2l.Session.{Guest, Session, frame_advance}
use chimera_core_eka2l.Harness.Wbx.{
  Ran, done, failed, spun, Box, WbxRun, pressed, loaded, rerecorded, advanced, ran_next, wbx_frame,
  wbx_frames,
}

state_write-taken :
    (realloc : ℕ → Bool) (d : Bytes) (b : StateBuf)
    → ((n : ℕ) → realloc n ≡ true)
    → (state_write realloc d b).1 ≡ true
unfolding state_write
state_write-taken realloc d b given =
    let want : ℕ = (length b.p + length d) % u64 * 2 % u64 in ground (arith, given want)

write_all-taken :
    (realloc : ℕ → Bool) (chunks : List Bytes) (b : StateBuf)
    → ((n : ℕ) → realloc n ≡ true)
    → (write_all realloc chunks b).1 ≡ true
unfolding write_all
write_all-taken realloc [] b given = refl
write_all-taken realloc (d ∷ chunks) b given =
    rw (state_write-taken realloc d b given)
      (write_all-taken realloc chunks (state_write realloc d b).0 given)

-- What the host's save and load do, and what a save needs: a machine that is loaded from what was just
-- saved of it is the same; no state has 2^63 bytes; and memory is there.
pub record Restores {ℓ} {S : Type ℓ} (box : Box S) : Type ℓ where
  pub restores :
      (s : Session S) (b : StateBuf)
      → b.p ≡ concat (box.save_state s)
      → b.pos ≡ 0
      → (k : ℕ) × (box.load_state s b ≡ some (s, record b { pos = k }))
  pub small : (s : Session S) → length (concat (box.save_state s)) * 2 < u64
  pub given : (n : ℕ) → box.realloc n ≡ true

-- The machine of a run, with the buffer of the states left aside.
abbrev pub session_of {ℓ} : {S : Type ℓ} → Ran (WbxRun S) → Ran (Session S)
session_of (done r) = done r.session
session_of failed = failed
session_of spun = spun

module _ {ℓ} {S F V : Type ℓ} (g : Guest S F V) (box : Box S) (ok : Restores box) where
  rerecorded_lem :
      (r : WbxRun S) → (b : StateBuf) × (rerecorded g box r ≡ done (record r { state = b }))
  unfolding rerecorded for_save for_load
  rerecorded_lem r =
      let chunks = box.save_state r.session in
      let taken = write_all-taken box.realloc chunks (for_save r.state) ok.given in
      let w =
        write_all-Written box.realloc chunks (for_save r.state) (omega arith)
          (omega (arith, ok.small r.session)) taken in
      let after = for_load (write_all box.realloc chunks (for_save r.state)).0 in
      let (k, back) = ok.restores r.session after w.bytes refl in
      (record after { pos = k }, rw taken (ap (loaded g box) back))

  -- What follows a frame does not depend on the buffer.
  next_session :
      (o : Option (Session S)) (u v : WbxRun S) (a b : WbxRun S → Ran (WbxRun S))
      → ((x y : WbxRun S) → x.session ≡ y.session → session_of (a x) ≡ session_of (b y))
      → session_of (ran_next g box a (advanced g box u o))
        ≡ session_of (ran_next g box b (advanced g box v o))
  next_session none u v a b h = refl
  next_session (some s) u v a b h = h (record u { session = s }) (record v { session = s }) refl

  -- Saving the machine and loading it again before every frame changes no run: with a host that
  -- restores what it has just saved, any number of frames with `--rerecord` leave the machine that they
  -- leave without it, or run out of fuel as they do without it.
  pub wbx_frames-rerecord :
      (fuel n f : ℕ) (press : ℤ) (frames : ℕ) (r q : WbxRun S)
      → r.session ≡ q.session
      → session_of (wbx_frames g box fuel true press frames n f r)
        ≡ session_of (wbx_frames g box fuel false press frames n f q)
  unfolding wbx_frames wbx_frame
  wbx_frames-rerecord fuel zero f press frames r q e = ap done e
  wbx_frames-rerecord fuel (suc n) f press frames r q e =
      let p : WbxRun S = record r { session = pressed g box press frames f r.session } in
      let (b, back) = rerecorded_lem p in
      ap
        (λ t. session_of (
          ran_next g box (wbx_frames g box fuel true press frames n (suc f))
            (ran_next g box (λ x. advanced g box x (frame_advance g fuel x.session)) t)))
        back
      ∙ ap
          (λ s. session_of (
            ran_next g box (wbx_frames g box fuel true press frames n (suc f)) (
              advanced g box (record p { state = b })
                (frame_advance g fuel (pressed g box press frames f s)))))
          e
      ∙ next_session (frame_advance g fuel (pressed g box press frames f q.session))
          (record p { state = b }) (record q { session = pressed g box press frames f q.session })
          (wbx_frames g box fuel true press frames n (suc f))
          (wbx_frames g box fuel false press frames n (suc f))
          (wbx_frames-rerecord fuel n (suc f) press frames)
