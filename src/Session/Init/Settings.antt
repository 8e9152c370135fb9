-- ===== src/Session/Init/Settings.antt =====
-- What `Init` of waterbox/wbx-entry.cpp reads of the project: its settings, and which file is its game,
-- with `ends_with`. The settings and the host's files are parameters.
use chimera_core_eka2l.Prelude.{
  ℕ, ◌+◌, ◌-◌, ◌*◌, ◌%◌, Bool, true, false, not, ◌&&◌, Option, none, some, [], ◌∷◌, ◌++◌, Bytes,
  codes, eqb, ltb, leb, ◌==◌, if◌then◌else◌, length, drop,
}
use chimera_core_eka2l.Vclock.{u64}
use chimera_core_eka2l.Start.{Scanned, parse_clock_start}
use chimera_core_eka2l.Install.{HostFiles}
use chimera_core_eka2l.Install.Card.{Archive}
use chimera_core_eka2l.Session.{Options, sample_rate}

-- A capital letter of ASCII made small.
abbrev pub small : ℕ → ℕ
small c = if leb b'A' c && leb c b'Z' then c + 32 else c

-- The loop of `ends_with`; both have the same length.
unfoldable pub matches : Bytes → Bytes → Bool
matches [] suffix = true
matches (c ∷ tail) [] = true
matches (c ∷ tail) (w ∷ suffix) = small c == w && matches tail suffix

unfoldable pub ends_with : Bytes → Bytes → Bool
unfolding matches
ends_with name suffix =
    if ltb (length name) (length suffix)
    then false
    else matches (drop (length name - length suffix) name) suffix

-- The settings, none where one is absent; what `sscanf` scans; which files are there; the name of the
-- game's slot; and what the files hold.
pub record Project : Type 0 where
  pub setting : Bytes → Option Bytes
  pub scan : Bytes → Option Scanned
  pub present : Bytes → Bool
  pub slot_name : Option Bytes
  pub host : HostFiles
  pub archive : Bytes → Archive

abbrev pub default_options : Options
default_options = record {
  storage = codes "data";
  in_memory_drives = true;
  sample_rate = sample_rate;
  epoch_us = 1262304000 * 1000000;
  instructions_per_second = 484000000;
  screen_buffer_sync = codes "preferred";
  hw_gles1 = true;
  cpu_backend = codes "dyncom";
  host_clock = false;
  log_syscalls = false;
}

abbrev pub or_default : Option Bytes → Bytes → Bytes
or_default none d = d
or_default (some value) d = value

abbrev pub hardware : Option Bytes → Bool → Bool
hardware none d = d
hardware (some value) d = not (eqb value (codes "software"))

abbrev pub set_up : Project → Options
set_up p = record default_options {
  screen_buffer_sync = or_default (p.setting (codes "screenBufferSync")) (codes "preferred");
  hw_gles1 = hardware (p.setting (codes "openglEs")) true;
}

-- The options, or the load error: the text's key, and after a TEXT_ARG the value.
abbrev pub dated : Options → Bytes → Option ℕ → Options × Option Bytes
dated o value none = (o, some (codes "error.clock_start" ++ 31 ∷ value))
dated o value (some seconds) = (record o { epoch_us = seconds * 1000000 % u64 }, none)

abbrev pub started_at : Project → Options → Option Bytes → Options × Option Bytes
started_at p o none = (o, none)
started_at p o (some value) = dated o value (parse_clock_start p.scan value)

unfoldable pub options_of : Project → Options × Option Bytes
unfolding eqb parse_clock_start
options_of p = started_at p (set_up p) (p.setting (codes "clockStart"))

-- The game that the project brought.
abbrev pub game_of : Project → Option Bytes → Option Bytes
game_of p (some name) = some name
game_of p none = if p.present (codes "game") then some (codes "game") else none
