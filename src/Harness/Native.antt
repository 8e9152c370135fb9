-- ===== src/Harness/Native.antt =====
-- waterbox/run-native.cpp: its loop over the frames, with the keys and the timer of its own.
pub mod Args
pub mod Verify
pub mod Prepare
use chimera_core_eka2l.Prelude.{
  ℕ, zero, suc, ◌+◌, ◌*◌, ◌/◌, ◌%◌, Bool, true, false, not, ◌&&◌, ◌||◌, Option, none, some, List,
  [], ◌∷◌, ltb, ◌==◌, if◌then◌else◌,
}
use chimera_core_eka2l.Vclock.{u64}
use chimera_core_eka2l.Audio.{ℤ, pos, negsuc, ◌+ℤ◌}
use chimera_core_eka2l.Run.{Machine, run_for_us}
use chimera_core_eka2l.Phone.{Phone, with_world, press}
use chimera_core_eka2l.Session.{Guest, Timer, TimerCall, render_audio}

-- What the arguments say of the frames. A count of frames below 0 is no frame. `script` has pairs of a
-- frame and a button.
pub record Frames : Type 0 where
  pub frames : ℕ
  pub slice_us : ℕ
  pub script : List (ℤ × ℤ)
  pub press_button : ℤ
  pub press_at : ℤ
  pub press_raw : ℤ

abbrev pub is_negative : ℤ → Bool
is_negative (pos n) = false
is_negative (negsuc n) = true

abbrev pub magnitude : ℤ → ℕ
magnitude (pos n) = n
magnitude (negsuc n) = suc n

-- `i == frame`
abbrev pub at_frame : ℤ → ℕ → Bool
at_frame (pos n) i = n == i
at_frame (negsuc n) i = false

-- The run so far: the machine, its timer check, and how often the emulator's loop ran.
pub record NativeRun {ℓ} (S : Type ℓ) : Type ℓ where
  pub phone : Phone S
  pub timer : Timer
  pub loops : ℕ

-- The function of the timer check, and all its calls of a frame.
unfoldable pub timer_fired : TimerCall → Timer → Timer
timer_fired c t = record t {
  fired = (t.fired + 1) % u64;
  last_us = c.microseconds;
  lateness_us = (t.lateness_us + c.late) % u64;
}

abbrev pub all_fired : List TimerCall → Timer → Timer
all_fired [] t = t
all_fired (c ∷ calls) t = all_fired calls (timer_fired c t)

-- The frames of sound that a frame pulls.
abbrev pub pulled : ℕ
pulled = 2 * (44100 / 60) / 2

-- `queue_raw` is a raw key event put to the window server, where there is one.
module _ {ℓ} {S F V : Type ℓ} (g : Guest S F V) (queue_raw : Bool → ℕ → S → S) where
  abbrev pub set_button : ℤ → Bool → Phone S → Phone S
  set_button button held p = press g.sys (is_negative button) (magnitude button) held p

  unfoldable pub scripted : List (ℤ × ℤ) → ℕ → Phone S → Phone S
  scripted [] i p = p
  scripted ((frame, button) ∷ script) i p = scripted script i (
      if at_frame frame i
      then set_button button true p
      else if at_frame (frame +ℤ pos 20) i
      then set_button button false p
      else p)

  abbrev pub down_at : Frames → ℕ → Bool
  down_at o i = if is_negative o.press_at then i + 200 == o.frames else at_frame o.press_at i

  abbrev pub up_at : Frames → ℕ → Bool
  up_at o i =
      if is_negative o.press_at then i + 180 == o.frames else at_frame (o.press_at +ℤ pos 20) i

  unfoldable pub pressed : Frames → ℕ → Phone S → Phone S
  pressed o i p =
      if is_negative o.press_button
      then p
      else if down_at o i
      then set_button o.press_button true p
      else if up_at o i
      then set_button o.press_button false p
      else p

  unfoldable pub pressed_raw : Frames → ℕ → Phone S → Phone S
  pressed_raw o i p =
      if not (is_negative o.press_raw) && (i + 200 == o.frames || i + 180 == o.frames)
      then with_world g.sys p
          (queue_raw (i + 200 == o.frames) (magnitude o.press_raw) p.machine.world)
      else p

  abbrev pub keyed : Frames → ℕ → Phone S → Phone S
  keyed o i p = pressed_raw o i (pressed o i (scripted o.script i p))

  -- What follows the run of the frame: the sound that is pulled, and the picture, which is not kept.
  abbrev pub after_run : NativeRun S → Phone S → Option (Machine S × ℕ) → Option (NativeRun S)
  after_run r p none = none
  after_run r p (some (machine, loops)) =
      let w = (render_audio g pulled machine.world).0 in
      some (record {
        phone = with_world g.sys (record p { machine = machine }) (g.display w).0;
        timer = all_fired (g.timer_calls machine.world) r.timer;
        loops = (r.loops + loops) % u64;
      })

  unfoldable pub native_frame : ℕ → Frames → ℕ → NativeRun S → Option (NativeRun S)
  unfolding scripted pressed pressed_raw
  native_frame fuel o i r =
      let p = keyed o i r.phone in after_run r p (run_for_us g.sys.loop fuel p.machine o.slice_us)

  abbrev pub native_next :
      (NativeRun S → Option (NativeRun S)) → Option (NativeRun S) → Option (NativeRun S)
  native_next rest none = none
  native_next rest (some r) = rest r

  -- The rounds left, and the frame.
  unfoldable pub native_frames : ℕ → Frames → ℕ → ℕ → NativeRun S → Option (NativeRun S)
  unfolding native_frame
  native_frames fuel o zero i r = some r
  native_frames fuel o (suc n) i r =
      native_next (native_frames fuel o n (suc i)) (native_frame fuel o i r)

  -- The timer check, where one is asked for; `us` is the period, in microseconds.
  unfoldable pub start_timer : ℤ → NativeRun S → NativeRun S
  start_timer (negsuc n) r = r
  start_timer (pos zero) r = r
  start_timer (pos (suc n)) r =
      let e = g.register_event r.phone.machine.world in
      record {
        phone = with_world g.sys r.phone (g.schedule_event (suc n) e.1 e.0);
        timer = record r.timer { event = e.1; period_us = suc n };
        loops = r.loops;
      }
