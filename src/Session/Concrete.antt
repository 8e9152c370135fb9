-- ===== src/Session/Concrete.antt =====
-- An emulator, a phone, a project and a session for the tests.
use mathlib.Core.Option.{some-injective}
use chimera_core_eka2l.Prelude.{
  ℕ, ◌-◌, ◌*◌, ◌<◌, ◌≡◌, refl, sym, ap, subst, true, false, Option, none, some, List, [], ◌∷◌, ◌++◌,
  Bytes, codes, eqb, eqb_refl, if◌then◌else◌, is_some, get_or, take_all, length, length-replicate,
  replicate, arith,
}
use chimera_core_eka2l.Vclock.{virtual_clock}
use chimera_core_eka2l.Audio.{pos}
use chimera_core_eka2l.Audio.Mix.{All-replicate}
use chimera_core_eka2l.Screen.{Display, Panel}
use chimera_core_eka2l.Memfs.Types.{Platform, attrib_none, physical, memory_file_system}
use chimera_core_eka2l.Install.{Emulator, u32}
use chimera_core_eka2l.Install.Files.{Contents, with_file, IsStore}
use chimera_core_eka2l.Install.Card.{Entry, Archive}
use chimera_core_eka2l.Devices.Languages.{Text}
use chimera_core_eka2l.Devices.{Identity, Manager, Device}
use chimera_core_eka2l.Phone.{System, Phone}
use chimera_core_eka2l.Session.{Guest, Session, session}
use chimera_core_eka2l.Session.Frames.{IsReadable}
use chimera_core_eka2l.Session.Init.Settings.{Project}

-- An emulator whose state is its files and whose open files are their paths.
abbrev pub emulator : Emulator Contents Bytes
emulator = record {
  utf8_to_ucs2 = λ b. b;
  file_directory = λ b. b;
  create_directories = λ dir s. s;
  open_file = λ path s. (with_file eqb path [] s, some path);
  write_file = λ f content size count s. (with_file eqb f content s, size * count);
  close = λ f s. s;
  announce_drive = λ drive s. s;
  install_package = λ package' s. (with_file eqb (codes "app") [] s, 0);
}

pub emulator-IsStore : IsStore emulator eqb (λ dir q. false) (λ s. s) (λ f. f)
emulator-IsStore = record {
  same_refl = eqb_refl;
  create_keeps = λ dir s q off. refl;
  refused = λ path s h. ground (arith, h);
  opened = λ path s f h. (sym (some-injective path f h), λ q. refl);
  filled = λ f content size count s empty fits. (
    omega (arith, fits),
    λ q.
        ap (λ c. with_file eqb f c s q)
          (sym (take_all (size * count) content (omega (arith, fits)))),
  );
  closed = λ f s q. refl;
}

-- One host file, and a card with one game.
abbrev pub host : Bytes → Option Bytes
host path = some (1 ∷ 2 ∷ [])

abbrev pub no_files : Contents
no_files path = none

pub host_small : (path content : Bytes) → host path ≡ some content → length content < u32
host_small path content h =
    subst (λ c. length c < u32) (some-injective (1 ∷ 2 ∷ []) content h) (omega arith)

abbrev pub card : List Entry
card =
    record { path = codes "game/"; is_directory = true }
    ∷ record { path = codes "game/system/a.app"; is_directory = false }
    ∷ record { path = codes "readme"; is_directory = false }
    ∷ []

abbrev pub archive : Archive
archive = record {
  entries = some card;
  content = λ path. some (7 ∷ 8 ∷ []);
  lowercase_string = λ b. b;
}

pub archive_small :
    (path content : Bytes) → archive.content path ≡ some content → length content < u32
archive_small path content h =
    subst (λ c. length c < u32) (some-injective (7 ∷ 8 ∷ []) content h) (omega arith)

-- The machine around it: an application is there once a package is installed, nothing runs, and time
-- passes by its timers.
abbrev pub system : System Contents Bytes
system = record {
  io = emulator;
  loop = record {
    runnable = true;
    loop = λ w c. (w, []);
    pump = λ w. w;
    advance = λ w c. (w, none);
  };
  app_list = λ s. some record {
    registerations = if is_some (s (codes "app")) then 9 ∷ [] else [];
    launches = λ uid. true;
  };
  start_app = λ uid s. s;
  winserv = λ s. true;
  queue_input_event = λ event s. s;
  threads = λ s. some [];
}

abbrev pub phone : Phone Contents
phone = record {
  machine = record { clock = virtual_clock 0 484000000; slice_instructions = 0; world = no_files };
  apps_before_install = [];
  launched_uid = 0;
  buttons = replicate 21 false;
}

abbrev pub rate : ℕ
rate = 484000000

-- Fuel for a frame: a microsecond's instructions for each of its microseconds.
abbrev pub fuel : ℕ
fuel = 16666 * 484000000

-- A text of two languages, the second marked; a language is its first digit.
abbrev pub text : Text
text = record {
  lines = λ t. codes "1" ∷ (13 ∷ []) ∷ codes "2d" ∷ [] ∷ codes "3" ∷ [];
  atoi = λ line. pos (get_or line 0 48 - 48);
}

abbrev pub platform : Platform
platform = record {
  ucs2_to_utf8 = λ b. b;
  utf8_to_ucs2 = λ b. b;
  full_wildcard_match = λ name filter fold. true;
  add_path = λ a b. a ++ b;
  filename = λ b. b;
  eka2 = 2;
  epoc6 = 1;
  default_drive = record {
    attribute = attrib_none;
    drive_name = [];
    media_type = physical;
    real_path = [];
  };
}

abbrev pub ngage : Identity
ngage = record {
  manufacturer = codes "Nokia";
  firmcode = codes "NEM-4";
  model = codes "N-Gage";
  ver = 1;
}

-- A ROM that needs no RPKG.
abbrev pub manager : Manager Contents
manager = record {
  platform = platform;
  text = text;
  rom_image = λ path. some [];
  rpkg_image = λ path. none;
  load_rom = λ image. true;
  should_install_requires_additional_rpkg = λ path. false;
  determine_device_from_rom = λ image. some ngage;
  determine_device_from_drive_files = λ read list. none;
  add_new_device = λ id s. (s, true);
  set_languages = λ firmcode languages d s. s;
  set_rom_path = λ path s. s;
  set_device = λ index s. (s, true);
  add_filesystem = λ fs s. s;
  mount = λ drive media path attributes s. s;
  set_patch_file_provider = λ s. s;
  initialize_user_parties = λ s. s;
  load_registries = λ s. s;
  migrate_legacy_registries = λ s. s;
}

abbrev pub no_device : Device Contents
no_device = record { world = no_files; rpkg_drive = none }

-- A screen of two by one that the compositor draws.
abbrev pub panel : Panel
panel = record {
  screen_buffer_chunk = true;
  rotation = 0;
  size_x = 2;
  size_y = 1;
  bpp = 12;
  pitch = 4;
  base = none;
}

abbrev pub display : Display
display = record {
  screen = some panel;
  dsa_active_count = 0;
  gdriver = true;
  texture = true;
  size_x = 2;
  size_y = 1;
  read_bitmap = some (λ i. 4278190335);
}

abbrev pub guest : Guest Contents Bytes Contents
guest = record {
  sys = system;
  manager = manager;
  start = λ o. no_files;
  osmesa_start = false;
  start_graphics = λ s. (s, false);
  start_null_graphics = λ s. s;
  start_audio = λ s. s;
  drives_of = λ s. memory_file_system platform;
  with_drives = λ fs s. s;
  display = λ s. (s, display);
  streams = λ s. none;
  set_streams = λ streams s. s;
  scaled = λ sample volume. sample;
  register_event = λ s. (s, 1);
  schedule_event = λ us event s. s;
  timer_calls = λ s. [];
  launch_registered = λ uid s. (s, true);
}

abbrev pub running : Session Contents
running = record (session phone) { inited = true }

pub running-IsReadable : IsReadable running
unfolding session
running-IsReadable = record {
  wide = omega arith;
  high = omega arith;
  video = length-replicate {A = ℕ} 409600 0;
  few = omega arith;
  audio = record { size = length-replicate 4096 (pos 0); range = All-replicate 4096 };
}

-- A project with a ROM and a card image.
abbrev pub project : Project
project = record {
  setting = λ name. none;
  scan = λ text. none;
  present = λ path. true;
  slot_name = some (codes "a.blz");
  host = host;
  archive = λ path. archive;
}
