-- ===== src/Harness/Tests.antt =====
-- The programs of waterbox/run-native.cpp and waterbox/run-wbx.c at concrete inputs.
use chimera_core_eka2l.Prelude.{
  ℕ, ◌≡◌, ◌≢◌, ◌↔◌, refl, true, false, none, some, Option, Bool, List, [], ◌∷◌, Bytes, codes, arith,
  eqb, length, Outcome, returns, throws, undefined, if◌then◌else◌,
}
use chimera_core_eka2l.Vclock.{virtual_clock}
use chimera_core_eka2l.Audio.{pos, negsuc}
use chimera_core_eka2l.Bus.{Bus, Host}
use chimera_core_eka2l.Memfs.Node.{Node, node, nil, content}
use chimera_core_eka2l.Memfs.File.{File, size}
use chimera_core_eka2l.Savestate.RoundTrip.{concat}
use chimera_core_eka2l.Session.{Session, session}
use chimera_core_eka2l.Session.Concrete.{guest, running, phone, project, fuel}
use chimera_core_eka2l.Install.Files.{Contents}
use chimera_core_eka2l.Savestate.{StateBuf}
use chimera_core_eka2l.Session.Init.Settings.{Project}
use chimera_core_eka2l.Harness.Digest.{native_bus, wbx_bus, screen_report}
use chimera_core_eka2l.Harness.Digest.Window.{bus_report}
use chimera_core_eka2l.Harness.Digest.Same.{wbx_bus-native_bus}
use chimera_core_eka2l.Harness.Digest.Detects.{screen_report-differ}
use chimera_core_eka2l.Harness.Native.{Frames, NativeRun, native_frames}
use chimera_core_eka2l.Harness.Native.Args.{
  Library, no_arguments, goes, parse_arguments, find_option,
}
use chimera_core_eka2l.Harness.Native.Verify.Clean.{IsClean, read_back-IsClean}
use chimera_core_eka2l.Harness.Native.Prepare.{Surroundings}
use chimera_core_eka2l.Harness.Wbx.{Box, WbxRun, wbx_frames}
use chimera_core_eka2l.Harness.Wbx.Rerecord.{session_of, wbx_frames-rerecord}
use chimera_core_eka2l.Harness.Agree.{Together, wbx_frames-native_frames}

-- A memory whose page at 0x00701000 is the host's from 0, and one that has it cached.
abbrev bus : Bus
bus = record {
  pages = some (λ page. some 0);
  memory = λ a. 7;
  cached_page = 4294967295;
  cached_host = none;
}

abbrev host_bus : Host
host_bus = record { inited = true; bus = bus }

wbx_bus-native_bus_example :
    ((native_bus bus).1 ≡ bus_report bus.pages bus.memory)
    × ((wbx_bus host_bus).1 ≡ (native_bus bus).1)
wbx_bus-native_bus_example = wbx_bus-native_bus host_bus bus refl refl refl (λ a. omega arith) tt tt

screen_report-differ_example :
    (screen_report (1 ∷ 2 ∷ 3 ∷ [])).digest ≢ (screen_report (1 ∷ 9 ∷ 3 ∷ [])).digest
screen_report-differ_example =
    screen_report-differ (1 ∷ []) (3 ∷ []) 2 9 (omega arith) (omega arith) (omega arith)

-- Forty frames with a key held for twenty of them near the end.
abbrev keyed : Frames
keyed = record {
  frames = 240;
  slice_us = 16666;
  script = [];
  press_button = pos 4;
  press_at = negsuc 0;
  press_raw = negsuc 0;
}

-- A host whose saves are the flag and whose loads give back what was saved.
abbrev box : Box Contents
box = record {
  save_state = λ s. (1 ∷ 2 ∷ []) ∷ (3 ∷ []) ∷ [];
  load_state = λ s b. if eqb b.p (1 ∷ 2 ∷ 3 ∷ []) then some (s, record b { pos = 3 }) else none;
  realloc = λ n. true;
}

abbrev wbx_run : WbxRun Contents
wbx_run = record { session = running; state = record { p = []; cap = 0; pos = 0 } }

abbrev native_run : NativeRun Contents
native_run = record { phone = running.machine; timer = running.timer; loops = 0 }

wbx_frames-native_frames_example :
    Together
      (wbx_frames guest box fuel false (pos 4) 240 240 0 wbx_run)
      (native_frames guest (λ held code w. w) fuel keyed 240 0 native_run)
unfolding virtual_clock session
wbx_frames-native_frames_example =
    wbx_frames-native_frames guest box (λ held code w. w) fuel 240 0 keyed wbx_run native_run
      record { slice = refl; no_script = refl; near_end = refl; no_raw = refl; index = omega arith }
      refl refl refl

restores :
    (s : Session Contents) (b : StateBuf)
    → b.p ≡ concat (box.save_state s)
    → b.pos ≡ 0
    → (k : ℕ) × (box.load_state s b ≡ some (s, record b { pos = k }))
unfolding eqb
restores s b h at = (3, rw h refl)

wbx_frames-rerecord_example :
    session_of (wbx_frames guest box fuel true (pos 4) 240 240 0 wbx_run)
    ≡ session_of (wbx_frames guest box fuel false (pos 4) 240 240 0 wbx_run)
wbx_frames-rerecord_example =
    wbx_frames-rerecord guest box
      record { restores = restores; small = λ s. omega arith; given = λ n. refl } fuel 240 0 (pos 4)
      240 wbx_run wbx_run refl

abbrev library : Library
library = record { atoi = λ text. pos (length text); strtol = λ text. pos (length text) }

abbrev taken_arguments : List Bytes
taken_arguments = codes "--gpu" ∷ codes "--frames" ∷ codes "60" ∷ []

taken :
    parse_arguments library taken_arguments no_arguments
    ≡ goes (record no_arguments { gpu = true; frames = pos 2 })
unfolding parse_arguments eqb find_option
taken = refl

abbrev file : Node
file = node (codes "a") false nil (1 ∷ 2 ∷ 3 ∷ []) none

abbrev handle : File
handle = record {
  node = record { drive = 2; keys = codes "a" ∷ [] };
  name = codes "a";
  mode = record { read = true; write = false; append = false; others = 0 };
  position = 2;
}

read_back-IsClean_example : IsClean file handle (1 ∷ 2 ∷ 3 ∷ []) ↔ (content file ≡ 1 ∷ 2 ∷ 3 ∷ [])
unfolding size
read_back-IsClean_example = read_back-IsClean file handle (1 ∷ 2 ∷ 3 ∷ []) (omega arith)

-- A project whose game the N-Gage application installs.
abbrev ngage_project : Project
ngage_project = record project { slot_name = some (codes "a.n-gage") }

abbrev around : Surroundings Contents
around = record {
  host = project.host;
  archive = project.archive;
  make_context = false;
  device_count = λ w. 1;
  install_game_card = λ card w. w;
}

abbrev came_up : Outcome (Option (Session Contents × Bool)) → Session Contents
came_up (returns (some (s, answer))) = s
came_up (returns none) = session phone
came_up throws = session phone
came_up undefined = session phone
