-- ===== src/Harness/Native/Args.antt =====
-- The arguments of waterbox/run-native.cpp. `atoi` and `strtol` are the C library's, parameters.
use chimera_core_eka2l.Prelude.{
  ℕ, ◌/◌, Bool, true, false, not, Option, none, some, List, [], ◌∷◌, ◌++◌, Bytes, codes, eqb, ◌==◌,
  if◌then◌else◌,
}
use chimera_core_eka2l.Audio.{ℤ, pos, negsuc}
use chimera_core_eka2l.Harness.Native.{Frames}
use chimera_core_eka2l.Screen.{colour_check_12bpp}

pub record Library : Type 0 where
  pub atoi : Bytes → ℤ
  pub strtol : Bytes → ℤ

-- `options` and the locals of `main`.
pub record Arguments : Type 0 where
  pub storage : Bytes
  pub host_clock : Bool
  pub cpu_backend : Bytes
  pub screen_buffer_sync : Bytes
  pub hw_gles1 : Bool
  pub log_syscalls : Bool
  pub frames : ℤ
  pub fps : ℤ
  pub sleep_ms : ℤ
  pub timer_period_us : ℤ
  pub list_apps : Bool
  pub run_path : Bytes
  pub probe_path : Bytes
  pub rom_only_path : Bytes
  pub install_path : Bytes
  pub card_path : Bytes
  pub press_button : ℤ
  pub press_raw : ℤ
  pub print_rom_path : Bool
  pub verbose : Bool
  pub gpu : Bool
  pub screen_out : Bytes
  pub bus_out : Bytes
  pub extract_to : Bytes
  pub put_spec : Bytes
  pub verify_spec : Bytes
  pub blz_path : Bytes
  pub blz_installer : Bytes
  pub rpkg_path : Bytes
  pub ngage_path : Bytes
  pub ngage_launcher : List Bytes
  pub press_at : ℤ
  pub script : List (ℤ × ℤ)

abbrev pub no_arguments : Arguments
no_arguments = record {
  storage = codes "data";
  host_clock = false;
  cpu_backend = codes "dyncom";
  screen_buffer_sync = codes "preferred";
  hw_gles1 = true;
  log_syscalls = false;
  frames = pos 0;
  fps = pos 60;
  sleep_ms = pos 0;
  timer_period_us = pos 0;
  list_apps = false;
  run_path = [];
  probe_path = [];
  rom_only_path = [];
  install_path = [];
  card_path = [];
  press_button = negsuc 0;
  press_raw = negsuc 0;
  print_rom_path = false;
  verbose = false;
  gpu = false;
  screen_out = [];
  bus_out = [];
  extract_to = [];
  put_spec = [];
  verify_spec = [];
  blz_path = [];
  blz_installer = [];
  rpkg_path = [];
  ngage_path = [];
  ngage_launcher = [];
  press_at = negsuc 0;
  script = [];
}

-- `spec.find(c)`: what stands before the first `c`, and what stands after it.
abbrev pub before_and : ℕ → Option (Bytes × Bytes) → Option (Bytes × Bytes)
before_and b none = none
before_and b (some (before, after)) = some (b ∷ before, after)

unfoldable pub split_at : ℕ → Bytes → Option (Bytes × Bytes)
split_at c [] = none
split_at c (b ∷ bs) = if b == c then some ([], bs) else before_and b (split_at c bs)

-- `--press-at`: a frame, or a frame and a button of the script.
abbrev pub press_at_spec : Library → Bytes → Option (Bytes × Bytes) → Arguments → Arguments
press_at_spec lib spec none a = record a { press_at = lib.atoi spec }
press_at_spec lib spec (some (frame, button)) a = record a {
  script = a.script ++ (lib.atoi frame, lib.atoi button) ∷ [];
}

-- The options with a value, and what each sets.
abbrev pub valued : Library → List (Bytes × (Bytes → Arguments → Arguments))
valued lib =
    (codes "--data", λ v a. record a { storage = v })
    ∷ (codes "--frames", λ v a. record a { frames = lib.atoi v })
    ∷ (codes "--fps", λ v a. record a { fps = lib.atoi v })
    ∷ (codes "--sleep-ms", λ v a. record a { sleep_ms = lib.atoi v })
    ∷ (codes "--timer-us", λ v a. record a { timer_period_us = lib.atoi v })
    ∷ (codes "--probe", λ v a. record a { probe_path = v })
    ∷ (codes "--press", λ v a. record a { press_button = lib.atoi v })
    ∷ (codes "--press-raw", λ v a. record a { press_raw = lib.strtol v })
    ∷ (codes "--blz", λ v a. record a { blz_path = v })
    ∷ (codes "--blz-installer", λ v a. record a { blz_installer = v })
    ∷ (codes "--card", λ v a. record a { card_path = v })
    ∷ (codes "--install", λ v a. record a { install_path = v })
    ∷ (codes "--ngage", λ v a. record a { ngage_path = v })
    ∷ (codes "--ngage-launcher", λ v a. record a { ngage_launcher = a.ngage_launcher ++ v ∷ [] })
    ∷ (codes "--rpkg", λ v a. record a { rpkg_path = v })
    ∷ (codes "--rom-only", λ v a. record a { rom_only_path = v })
    ∷ (codes "--cpu", λ v a. record a { cpu_backend = v })
    ∷ (codes "--screen-buffer-sync", λ v a. record a { screen_buffer_sync = v })
    ∷ (codes "--opengl-es", λ v a. record a { hw_gles1 = not (eqb v (codes "software")) })
    ∷ (codes "--verify", λ v a. record a { verify_spec = v })
    ∷ (codes "--put", λ v a. record a { put_spec = v })
    ∷ (codes "--press-at", λ v a. press_at_spec lib v (split_at b':' v) a)
    ∷ (codes "--extract-to", λ v a. record a { extract_to = v; verbose = true })
    ∷ (codes "--bus-out", λ v a. record a { bus_out = v })
    ∷ (codes "--screen-out", λ v a. record a { screen_out = v })
    ∷ (codes "--run", λ v a. record a { run_path = v })
    ∷ []

-- The options without one, but `--colour-check`.
abbrev pub plain : List (Bytes × (Arguments → Arguments))
plain =
    (codes "--host-clock", λ a. record a { host_clock = true })
    ∷ (codes "--gpu", λ a. record a { gpu = true })
    ∷ (codes "--verbose", λ a. record a { verbose = true })
    ∷ (codes "--log-svc", λ a. record a { verbose = true; log_syscalls = true })
    ∷ (codes "--print-rom-path", λ a. record a { print_rom_path = true })
    ∷ (codes "--list-apps", λ a. record a { list_apps = true })
    ∷ []

unfoldable pub find_option {ℓ} : {A : Type ℓ} → Bytes → List (Bytes × A) → Option A
find_option flag [] = none
find_option flag ((name, action) ∷ options) =
    if eqb flag name then some action else find_option flag options

-- The program goes on with its arguments, or ends with an exit code.
pub data Parsed : Type 0 where
  goes : Arguments → Parsed
  exits : ℕ → Parsed

abbrev pub colour_check : Parsed
colour_check = exits (if colour_check_12bpp then 0 else 1)

module _ (lib : Library) where
  -- The loop over `argv`: an option that takes a value is unknown where none follows.
  unfoldable pub parse_arguments : List Bytes → Arguments → Parsed
  unfolding find_option
  parse_arguments [] a = goes a
  parse_arguments (flag ∷ []) a = elim (eqb flag (codes "--colour-check")) [
    | true ↦ colour_check
    | false ↦ elim (find_option flag plain) [ some action ↦ goes (action a) | none ↦ exits 2 ]
  ]
  parse_arguments (flag ∷ value ∷ rest) a = elim (eqb flag (codes "--colour-check")) [
    | true ↦ colour_check
    | false ↦ elim (find_option flag plain) [
      | some action ↦ parse_arguments (value ∷ rest) (action a)
      | none ↦ elim (find_option flag (valued lib)) [
        | some action ↦ parse_arguments rest (action value a)
        | none ↦ exits 2
      ]
    ]
  ]

  -- `fps <= 0`
  abbrev pub no_rate : ℤ → Bool
  no_rate (pos n) = n == 0
  no_rate (negsuc n) = true

  abbrev pub with_rate : Parsed → Parsed
  with_rate (goes a) = if no_rate a.fps then exits 2 else goes a
  with_rate (exits code) = exits code

  -- What `main` makes of its arguments.
  unfoldable pub arguments : List Bytes → Parsed
  unfolding parse_arguments
  arguments argv = with_rate (parse_arguments argv no_arguments)

abbrev pub natural : ℤ → ℕ
natural (pos n) = n
natural (negsuc n) = 0

-- The options of the frames.
unfoldable pub frames_of : Arguments → Frames
frames_of a = record {
  frames = natural a.frames;
  slice_us = 1000000 / natural a.fps;
  script = a.script;
  press_button = a.press_button;
  press_at = a.press_at;
  press_raw = a.press_raw;
}
