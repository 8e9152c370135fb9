-- ===== src/Harness/Native/Prepare.antt =====
-- How waterbox/run-native.cpp makes the machine: its options, the device and the drives, what is
-- installed, and the application that starts. The host's files, EGL's answer and the card installer that
-- wants a host's directories are parameters.
pub mod Game
pub mod AsInit
pub mod CommandLine
use chimera_core_eka2l.Prelude.{
  ℕ, Bool, true, false, not, ◌||◌, Option, none, some, List, [], ◌∷◌, Bytes, codes, ◌==◌,
  if◌then◌else◌, is_empty, replicate, Outcome, returns, throws, undefined,
}
use chimera_core_eka2l.Vclock.{virtual_clock}
use chimera_core_eka2l.Keypad.{button_count}
use chimera_core_eka2l.Memfs.Types.{memory_file_system}
use chimera_core_eka2l.Devices.{Device, add_device_from_rom, set_device, boot}
use chimera_core_eka2l.Install.{HostFiles, drive_c, drive_e, install_ngage, put_file}
use chimera_core_eka2l.Install.Card.{Archive, install_card}
use chimera_core_eka2l.Install.Blz.{install_blz}
use chimera_core_eka2l.Phone.{Phone, with_world, remember, launch, launch_installed}
use chimera_core_eka2l.Session.{Guest, Options}
use chimera_core_eka2l.Session.Init.{mount_drives}
use chimera_core_eka2l.Session.Init.Settings.{default_options}
use chimera_core_eka2l.Harness.Native.Args
use chimera_core_eka2l.Harness.Native.Args.{Arguments, Library, arguments, split_at}

-- `machine_options`, as the arguments leave it: the memory's drives come with a ROM.
unfoldable pub options_of : Arguments → Options
options_of a = record default_options {
  storage = a.storage;
  in_memory_drives = not (is_empty a.rom_only_path);
  screen_buffer_sync = a.screen_buffer_sync;
  hw_gles1 = a.hw_gles1;
  cpu_backend = a.cpu_backend;
  host_clock = a.host_clock;
  log_syscalls = a.log_syscalls;
}

-- The machine is there for its frames, or the program has ended with a code.
pub data Prepared {ℓ} (S : Type ℓ) : Type ℓ where
  ready : Phone S → Prepared S
  exits : ℕ → Prepared S

-- What the host has.
pub record Surroundings {ℓ} (S : Type ℓ) : Type ℓ where
  pub host : HostFiles
  pub archive : Bytes → Archive
  pub make_context : Bool
  pub device_count : S → ℕ
  pub install_game_card : Bytes → S → S

module _ {ℓ} {S F V : Type ℓ} (g : Guest S F V) (e : Surroundings S) where
  -- The constructor, `startup`, the graphics and the sound; none without the context asked for.
  abbrev pub with_graphics : Arguments → S → Option S
  with_graphics a w =
      if a.gpu
      then if e.make_context then some (g.start_graphics w).0 else none
      else some (g.start_null_graphics w)

  abbrev pub made_of : Options → S → Phone S
  made_of o w = record {
    machine = record {
      clock = virtual_clock o.epoch_us o.instructions_per_second;
      slice_instructions = 0;
      world = g.start_audio w;
    };
    apps_before_install = [];
    launched_uid = 0;
    buttons = replicate button_count false;
  }

  abbrev pub with_made : Options → Option S → Option (Phone S)
  with_made o none = none
  with_made o (some w) = some (made_of o w)

  unfoldable pub made : Arguments → Option (Phone S)
  unfolding virtual_clock options_of
  made a = with_made (options_of a) (with_graphics a (g.start (options_of a)))

  abbrev pub any_app : Arguments → Bool
  any_app a =
      not (is_empty a.install_path) || not (is_empty a.card_path) || not (is_empty a.blz_path)

  abbrev pub announce : ℕ → Phone S → Phone S
  announce drive p = with_world g.sys p (g.sys.io.announce_drive drive p.machine.world)

  abbrev pub remembered : Arguments → Phone S → Phone S
  remembered a p = if any_app a then remember g.sys p else p

  abbrev pub packaged : Arguments → Phone S → Phone S
  packaged a p =
      if is_empty a.install_path
      then p
      else announce drive_c
          (with_world g.sys p (g.sys.io.install_package a.install_path p.machine.world).0)

  abbrev pub without_answer : Option (Phone S × Bool) → Option (Phone S)
  without_answer none = none
  without_answer (some (p, answer)) = some p

  abbrev pub unpacked : ℕ → Arguments → Phone S → Option (Phone S)
  unpacked fuel a p =
      if is_empty a.blz_path
      then some p
      else without_answer (install_blz g.sys fuel e.host a.blz_path a.blz_installer p)

  -- With the UID of the N-Gage application, or 0.
  abbrev pub ngage_put : Arguments → Phone S → Phone S × ℕ
  ngage_put a p =
      let r = install_ngage g.sys.io e.host a.ngage_path a.ngage_launcher p.machine.world in
      (with_world g.sys p r.0, r.1)

  abbrev pub with_ngage : Arguments → Phone S → Phone S × ℕ
  with_ngage a p = if is_empty a.ngage_path then (p, 0) else ngage_put a (remember g.sys p)

  abbrev pub card_world : Bool → Bytes → S → S
  card_world drives card w =
      if drives then (install_card g.sys.io (e.archive card) w).0 else e.install_game_card card w

  abbrev pub with_card : Bool → Arguments → Phone S → Phone S
  with_card drives a p =
      if is_empty a.card_path
      then p
      else announce drive_e (with_world g.sys p (card_world drives a.card_path p.machine.world))

  abbrev pub put_at : Option (Bytes × Bytes) → Phone S → Phone S
  put_at none p = p
  put_at (some (machine_path, host_path)) p =
      with_world g.sys p (put_file g.sys.io e.host machine_path host_path p.machine.world).0

  abbrev pub started : Arguments → Phone S → ℕ → Phone S
  started a p ngage_uid =
      if ngage_uid == 0
      then if any_app a then (launch_installed g.sys p).0 else p
      else (launch g.sys ngage_uid p).0

  -- What follows the unpacking of a .blz, and the whole; none where the fuel of a frame runs out.
  abbrev pub then_rest : Bool → Arguments → Option (Phone S) → Option (Prepared S)
  then_rest drives a none = none
  then_rest drives a (some p) =
      let n = with_ngage a p in
      some (ready (started a (put_at (split_at b'=' a.put_spec) (with_card drives a n.0)) n.1))

  unfoldable pub install_all : ℕ → Bool → Arguments → Phone S → Option (Prepared S)
  unfolding split_at
  install_all fuel drives a p = then_rest drives a (unpacked fuel a (packaged a (remembered a p)))

  -- The device that there is, booted; drives of memory are announced.
  abbrev pub booted : Bool → Arguments → Device S × Bool → S
  booted drives a (d, false) = d.world
  booted drives a (d, true) =
      let up = boot g.manager drives a.storage d.world in
      if drives
      then g.sys.io.announce_drive 4 (g.sys.io.announce_drive 3 (g.sys.io.announce_drive 2 up))
      else up

  abbrev pub with_device : Bool → Arguments → Device S → S
  with_device drives a d =
      if e.device_count d.world == 0 then d.world else booted drives a (set_device g.manager 0 d)

  abbrev pub with_added :
      ℕ → Arguments → Phone S → Outcome (Device S × Option Bytes) → Outcome (Option (Prepared S))
  with_added fuel a p (returns (d, some error)) = returns (some (exits 1))
  with_added fuel a p (returns (d, none)) =
      let mounted = g.with_drives (mount_drives (g.drives_of d.world)) d.world in
      returns (
        install_all fuel true a
          (with_world g.sys p (with_device true a (record d { world = mounted }))))
  with_added fuel a p throws = throws
  with_added fuel a p undefined = undefined

  abbrev pub with_drives : Phone S → S
  with_drives p =
      let fs = memory_file_system g.manager.platform in
      g.manager.add_filesystem fs (g.with_drives fs p.machine.world)

  abbrev pub with_machine : ℕ → Arguments → Option (Phone S) → Outcome (Option (Prepared S))
  with_machine fuel a none = returns (some (exits 1))
  with_machine fuel a (some p) =
      if is_empty a.rom_only_path
      then returns (
          install_all fuel false a (
            with_world g.sys p
              (with_device false a (record { world = p.machine.world; rpkg_drive = none }))))
      else with_added fuel a p (
          add_device_from_rom g.manager a.rom_only_path a.rpkg_path
            (record { world = with_drives p; rpkg_drive = none }))

  unfoldable pub prepare : ℕ → Arguments → Outcome (Option (Prepared S))
  unfolding made install_all
  prepare fuel a = with_machine fuel a (made a)

  -- `main`, from its arguments to the loop over the frames.
  abbrev pub parsed_to : ℕ → Args.Parsed → Outcome (Option (Prepared S))
  parsed_to fuel (Args.goes a) = prepare fuel a
  parsed_to fuel (Args.exits code) = returns (some (exits code))

  unfoldable pub prepare_argv : Library → ℕ → List Bytes → Outcome (Option (Prepared S))
  prepare_argv lib fuel argv = parsed_to fuel (arguments lib argv)
