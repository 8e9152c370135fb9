-- ===== src/Harness/Wbx.antt =====
-- waterbox/run-wbx.c: its loop over the frames of the sandboxed machine.
pub mod Rerecord
use chimera_core_eka2l.Prelude.{
  ℕ, zero, suc, ◌+◌, ◌%◌, ◌^◌, Bool, true, false, not, Option, none, some, List, [], ◌∷◌, Bytes,
  leb, ◌==◌, if◌then◌else◌,
}
use chimera_core_eka2l.Run.{u32}
use chimera_core_eka2l.Audio.{ℤ, pos, negsuc}
use chimera_core_eka2l.Savestate.{StateBuf, for_save, for_load}
use chimera_core_eka2l.Savestate.RoundTrip.{write_all}
use chimera_core_eka2l.Session.{Guest, Session, frame_advance}
use chimera_core_eka2l.Session.Exports.{set_button}

-- How a run stands: it goes on, the program ends with an error, or the fuel of a frame ran out.
pub data Ran {ℓ} (A : Type ℓ) : Type ℓ where
  done : A → Ran A
  failed : Ran A
  spun : Ran A

-- The host of the sandbox (miniBox): the pieces in which `wbx_save_state` writes the machine, and
-- `wbx_load_state` over the buffer that it reads; none with an error. `realloc` is the C library's.
pub record Box {ℓ} (S : Type ℓ) : Type ℓ where
  pub save_state : Session S → List Bytes
  pub load_state : Session S → StateBuf → Option (Session S × StateBuf)
  pub realloc : ℕ → Bool

-- The machine, and `g_state`.
pub record WbxRun {ℓ} (S : Type ℓ) : Type ℓ where
  pub session : Session S
  pub state : StateBuf

module _ {ℓ} {S F V : Type ℓ} (g : Guest S F V) (box : Box S) where
  -- `SetButton((int32_t)press, held)`
  abbrev pub press_button : ℕ → ℕ → Session S → Session S
  press_button press held s = set_button g (leb (2 ^ 31) (press % u32)) (press % u32) held s

  unfoldable pub pressed : ℤ → ℕ → ℕ → Session S → Session S
  pressed (negsuc n) frames f s = s
  pressed (pos press) frames f s =
      if f + 200 == frames
      then press_button press 1 s
      else if f + 180 == frames
      then press_button press 0 s
      else s

  abbrev pub loaded : Option (Session S × StateBuf) → Ran (WbxRun S)
  loaded none = failed
  loaded (some (s, b)) = done record { session = s; state = b }

  -- The machine saved and loaded again.
  unfoldable pub rerecorded : WbxRun S → Ran (WbxRun S)
  rerecorded r =
      let w = write_all box.realloc (box.save_state r.session) (for_save r.state) in
      if not w.1 then failed else loaded (box.load_state r.session (for_load w.0))

  abbrev pub advanced : WbxRun S → Option (Session S) → Ran (WbxRun S)
  advanced r none = spun
  advanced r (some s) = done record r { session = s }

  abbrev pub ran_next : (WbxRun S → Ran (WbxRun S)) → Ran (WbxRun S) → Ran (WbxRun S)
  ran_next rest (done r) = rest r
  ran_next rest failed = failed
  ran_next rest spun = spun

  unfoldable pub wbx_frame : ℕ → Bool → ℤ → ℕ → ℕ → WbxRun S → Ran (WbxRun S)
  unfolding pressed rerecorded
  wbx_frame fuel rerecord_on press frames f r =
      let p = record r { session = pressed press frames f r.session } in
      ran_next (λ q. advanced q (frame_advance g fuel q.session))
        (if rerecord_on then rerecorded p else done p)

  -- The rounds left, and the frame.
  unfoldable pub wbx_frames : ℕ → Bool → ℤ → ℕ → ℕ → ℕ → WbxRun S → Ran (WbxRun S)
  unfolding wbx_frame
  wbx_frames fuel rerecord_on press frames zero f r = done r
  wbx_frames fuel rerecord_on press frames (suc n) f r =
      ran_next (wbx_frames fuel rerecord_on press frames n (suc f))
        (wbx_frame fuel rerecord_on press frames f r)
