-- ===== src/Session.antt =====
-- The session of waterbox/wbx-entry.cpp: the globals of the entry points, and the exports that run and
-- read them. `Init` is a child's. The state of EKA2L1 and everything that it does are parameters.
pub mod Exports
pub mod Init
pub mod Frames
pub mod Concrete
mod Tests
use chimera_core_eka2l.Prelude.{
  ℕ, ◌+◌, ◌*◌, ◌/◌, ◌%◌, ◌^◌, Bool, true, false, not, ◌&&◌, ◌||◌, Option, none, some, List, [], ◌∷◌,
  ◌++◌, Bytes, ltb, leb, ◌==◌, if◌then◌else◌, length, drop, replicate,
}
use chimera_core_eka2l.Vclock.{u64, elapsed_us}
use chimera_core_eka2l.Audio.{ℤ, pos, Stream, render}
use chimera_core_eka2l.Apps.{AppList, holds}
use chimera_core_eka2l.Screen.{Display, Picture, read_screen}
use chimera_core_eka2l.Memfs.Types.{FileSystem}
use chimera_core_eka2l.Memfs.Entries.{entry_count, written_bytes}
use chimera_core_eka2l.Devices.{Manager}
use chimera_core_eka2l.Phone.{System, Phone, with_world, press, run_frame}

-- A call of the timer check's function: how late, as a 64-bit number, and when.
pub record TimerCall : Type 0 where
  pub late : ℕ
  pub microseconds : ℕ

-- `machine_options`, the fields that `Init` sets or the machine's model reads.
pub record Options : Type 0 where
  pub storage : Bytes
  pub in_memory_drives : Bool
  pub sample_rate : ℕ
  pub epoch_us : ℕ
  pub instructions_per_second : ℕ
  pub screen_buffer_sync : Bytes
  pub hw_gles1 : Bool
  pub cpu_backend : Bytes
  pub host_clock : Bool
  pub log_syscalls : Bool

-- What is asked of EKA2L1 beyond the `System` and the device manager. `start` is the constructor of
-- `machine` with `startup`; `start_graphics` says whether a driver was made; the filesystem that the
-- session and the emulator share is a part of the state, and `streams` is none without a sound sink.
pub record Guest {ℓ} (S F V : Type ℓ) : Type ℓ where
  pub sys : System S F
  pub manager : Manager S
  pub start : Options → S
  pub osmesa_start : Bool
  pub start_graphics : S → S × Bool
  pub start_null_graphics : S → S
  pub start_audio : S → S
  pub drives_of : S → FileSystem
  pub with_drives : FileSystem → S → S
  pub display : S → S × Display
  pub streams : S → Option (List (Stream V))
  pub set_streams : List (Stream V) → S → S
  pub scaled : ℤ → V → ℤ
  pub register_event : S → S × ℕ
  pub schedule_event : ℕ → ℕ → S → S
  pub timer_calls : S → List TimerCall
  pub launch_registered : ℕ → S → S × Bool

-- `g_timerFired` and its neighbours.
pub record Timer : Type 0 where
  pub fired : ℕ
  pub last_us : ℕ
  pub lateness_us : ℕ
  pub event : ℕ
  pub period_us : ℕ

-- The globals. The machine is of no meaning before `Init`; `installed` is none for -1, and `drives`
-- says that the session has its filesystem.
pub record Session {ℓ} (S : Type ℓ) : Type ℓ where
  pub load_error : Bytes
  pub inited : Bool
  pub machine : Phone S
  pub timer : Timer
  pub screen : List ℕ
  pub video : List ℕ
  pub video_width : ℕ
  pub video_height : ℕ
  pub audio : List ℤ
  pub audio_samples : ℕ
  pub drives : Bool
  pub device : Bool
  pub launched : ℕ
  pub installed : Option ℕ

abbrev pub max_width : ℕ
max_width = 640

abbrev pub max_height : ℕ
max_height = 640

abbrev pub sample_rate : ℕ
sample_rate = 44100

abbrev pub max_samples : ℕ
max_samples = 2048

-- The globals as the program starts with them.
unfoldable pub session {ℓ} : {S : Type ℓ} → Phone S → Session S
session p = record {
  load_error = [];
  inited = false;
  machine = p;
  timer = record { fired = 0; last_us = 0; lateness_us = 0; event = 0; period_us = 0 };
  screen = [];
  video = replicate (max_width * max_height) 0;
  video_width = 176;
  video_height = 208;
  audio = replicate (max_samples * 2) (pos 0);
  audio_samples = 0;
  drives = false;
  device = false;
  launched = 0;
  installed = none;
}

-- The timer check's function, and all its calls of a frame.
unfoldable pub timer_due : TimerCall → Timer → Timer
timer_due c t = record t {
  fired = (t.fired + 1) % u64;
  last_us = c.microseconds;
  lateness_us = (t.lateness_us + c.late) % u64;
}

abbrev pub all_due : List TimerCall → Timer → Timer
all_due [] t = t
all_due (c ∷ calls) t = all_due calls (timer_due c t)

-- `std::copy` into the start of a buffer.
abbrev pub copied {ℓ} : {A : Type ℓ} → List A → List A → List A
copied from onto = from ++ drop (length from) onto

module _ {ℓ} {S F V : Type ℓ} (g : Guest S F V) where
  abbrev pub world_of : Session S → S
  world_of s = s.machine.machine.world

  abbrev pub in_world : Session S → S → Session S
  in_world s w = record s { machine = with_world g.sys s.machine w }

  -- `render_audio`: silence without a sink.
  abbrev pub rendered : ℕ → Option (List (Stream V)) → S → S × List ℤ
  rendered frames none w = (w, replicate (frames * 2) (pos 0))
  rendered frames (some streams) w =
      let r = render g.scaled sample_rate frames streams in (g.set_streams r.0 w, r.1)

  unfoldable pub render_audio : ℕ → S → S × List ℤ
  render_audio frames w = rendered frames (g.streams w) w

  -- Whether the buffer takes the picture.
  abbrev pub fits : Picture × Bool → Bool
  fits (pic, there) =
      there
      && ltb 0 pic.width
      && ltb 0 pic.height
      && leb pic.width max_width
      && leb pic.height max_height

  -- The picture of a frame, where it is one and fits.
  abbrev pub show : Session S → Picture × Bool → Session S
  show s (pic, there) =
      let read = record s { screen = pic.out } in
      if fits (pic, there)
      then record read {
        video_width = pic.width;
        video_height = pic.height;
        video = copied pic.out s.video;
      }
      else read

  -- What follows the frame's run: the sound, then the picture.
  abbrev pub sound_of : Phone S → S × List ℤ
  sound_of p = render_audio (sample_rate / 60) p.machine.world

  abbrev pub picture_of : Session S → Phone S → Picture × Bool
  picture_of s p =
      read_screen (g.display (sound_of p).0).1 record { out = s.screen; width = 0; height = 0 }

  abbrev pub heard : Session S → Phone S → Session S
  heard s p = record s {
    machine = with_world g.sys p (g.display (sound_of p).0).0;
    timer = all_due (g.timer_calls p.machine.world) s.timer;
    audio_samples = sample_rate / 60;
    audio = copied (sound_of p).1 s.audio;
  }

  abbrev pub after_run : Session S → Phone S → Session S
  after_run s p = show (heard s p) (picture_of s p)

  abbrev pub advanced : Session S → Option (Phone S) → Option (Session S)
  advanced s none = none
  advanced s (some p) = some (after_run s p)

  -- none where the fuel of the frame's run runs out.
  unfoldable pub frame_advance : ℕ → Session S → Option (Session S)
  frame_advance fuel s =
      if not s.inited then some s else advanced s (run_frame g.sys fuel s.machine)
