-- ===== src/Session/Init.antt =====
-- `Init` of waterbox/wbx-entry.cpp: the machine, its device, its drives, and the
-- project's game. The settings and the host's files are parameters.
pub mod Settings
pub mod Game
pub mod Started
use chimera_core_eka2l.Prelude.{
  ℕ, ◌+◌, ◌-◌, ◌*◌, ◌%◌, Bool, true, false, not, ◌&&◌, Option, none, some, List, [], ◌∷◌, ◌++◌,
  Bytes, codes, eqb, ltb, leb, ◌==◌, if◌then◌else◌, length, drop, replicate, Outcome, returns,
  throws, undefined,
}
use chimera_core_eka2l.Vclock.{u64, virtual_clock}
use chimera_core_eka2l.Start.{Scanned, parse_clock_start}
use chimera_core_eka2l.Keypad.{button_count}
use chimera_core_eka2l.Memfs.Types.{Platform, FileSystem, physical, attrib_none, memory_file_system}
use chimera_core_eka2l.Memfs.Resolve.{mount_empty}
use chimera_core_eka2l.Devices.{Device, add_device_from_rom, set_device, boot}
use chimera_core_eka2l.Install.{HostFiles, drive_c, drive_e, install_ngage}
use chimera_core_eka2l.Install.Card.{Archive, install_card}
use chimera_core_eka2l.Install.Blz.{install_blz}
use chimera_core_eka2l.Phone.{Phone, with_world, remember, launch, launch_installed}
use chimera_core_eka2l.Session.{Guest, Session, Options, sample_rate, world_of, in_world}
use chimera_core_eka2l.Session.Init.Settings.{Project, ends_with, options_of, game_of}

-- The writable drives of the session's filesystem.
unfoldable pub mount_drives : FileSystem → FileSystem
unfolding mount_empty
mount_drives fs =
    let internal' = record attrib_none { internal = true } in
    let c = (mount_empty fs 2 physical internal').0 in
    let d = (mount_empty c 3 physical internal').0 in
    (mount_empty d 4 physical (record attrib_none { removeable = true })).0

-- How the installing of the game ends: the machine, what is installed, and the UID of the N-Gage
-- application or 0; or the load error.
pub data GameInstall {ℓ} (S : Type ℓ) : Type ℓ where
  installed : Phone S → ℕ → ℕ → GameInstall S
  refused : Phone S → Bytes → GameInstall S

module _ {ℓ} {S F V : Type ℓ} (g : Guest S F V) where
  -- The machine's constructor, `startup`, the graphics and the sound.
  abbrev pub with_graphics : S × Bool → S
  with_graphics (w, true) = w
  with_graphics (w, false) = g.start_null_graphics w

  unfoldable pub new_machine : Options → Phone S
  unfolding virtual_clock
  new_machine o = record {
    machine = record {
      clock = virtual_clock o.epoch_us o.instructions_per_second;
      slice_instructions = 0;
      world = g.start_audio (
          with_graphics
            (if g.osmesa_start then g.start_graphics (g.start o) else (g.start o, false)));
    };
    apps_before_install = [];
    launched_uid = 0;
    buttons = replicate button_count false;
  }

  abbrev pub announce : ℕ → Phone S → Phone S
  announce drive p = with_world g.sys p (g.sys.io.announce_drive drive p.machine.world)

  abbrev pub ngage_installed : Phone S → S × ℕ → GameInstall S
  ngage_installed p (w, uid) =
      if uid == 0
      then refused (with_world g.sys p w) (codes "error.ngage_not_installed")
      else installed (with_world g.sys p w) 0 uid

  abbrev pub blz_unpacked : Option (Phone S × Bool) → Option (GameInstall S)
  blz_unpacked none = none
  blz_unpacked (some (p, true)) = some (installed p 0 0)
  blz_unpacked (some (p, false)) = some (refused p (codes "error.blz_not_unpacked"))

  abbrev pub from_package : Bytes → Phone S → GameInstall S
  from_package game p =
      let r = g.sys.io.install_package game p.machine.world in
      installed (announce drive_c (with_world g.sys p r.0)) r.1 0

  abbrev pub from_card : Bytes → Phone S → S × ℕ → GameInstall S
  from_card game p (w, card_files) =
      if ltb 0 card_files
      then installed (announce drive_e (with_world g.sys p w)) 0 0
      else from_package game (with_world g.sys p w)

  -- Which of the four the game is; none where the fuel of a frame's run runs out.
  unfoldable pub install_game : ℕ → Project → Bytes → Phone S → Option (GameInstall S)
  unfolding ends_with
  install_game fuel project game p =
      if ends_with game (codes ".n-gage")
      then some (
          ngage_installed p
            (install_ngage g.sys.io project.host game (codes "ngage.sis" ∷ []) p.machine.world))
      else if ends_with game (codes ".blz")
      then blz_unpacked (install_blz g.sys fuel project.host game (codes "blzinstapp.sis") p)
      else some (from_card game p (install_card g.sys.io (project.archive game) p.machine.world))

  -- The project's application, by its UID or as the one that is new.
  unfoldable pub start_game : ℕ → Phone S → Phone S × ℕ
  start_game ngage_app p =
      if ngage_app == 0
      then launch_installed g.sys p
      else let r = launch g.sys ngage_app p in (r.0, if r.1 then ngage_app else 0)

  abbrev pub failed : Session S → Bytes → Session S × Bool
  failed s error = (record s { load_error = error }, false)

  abbrev pub game_started : Session S → Option (GameInstall S) → Option (Session S × Bool)
  game_started s none = none
  game_started s (some (refused p error)) = some (failed (record s { machine = p }) error)
  game_started s (some (installed p result ngage_app)) =
      let r = start_game ngage_app p in
      some (
        record s {
          machine = r.0;
          installed = some result;
          launched = r.1;
          device = true;
          inited = true;
        },
        true,
      )

  abbrev pub with_game : ℕ → Project → Option Bytes → Session S → Option (Session S × Bool)
  with_game fuel project none s = some (record s { device = true; inited = true }, true)
  with_game fuel project (some game) s =
      game_started s (install_game fuel project game (remember g.sys s.machine))

  abbrev pub booted : Session S → S → Session S
  booted s w =
      let up = boot g.manager true (codes "data") w in
      in_world g s
        (g.sys.io.announce_drive 4 (g.sys.io.announce_drive 3 (g.sys.io.announce_drive 2 up)))

  abbrev pub with_device : ℕ → Project → Session S → Device S × Bool → Option (Session S × Bool)
  with_device fuel project s (d, ok) =
      if not ok
      then some (failed (in_world g s d.world) (codes "error.rom_device_refused"))
      else with_game fuel project (game_of project project.slot_name) (booted s d.world)

  abbrev pub with_added :
      ℕ
      → Project
      → Session S
      → Outcome (Device S × Option Bytes)
      → Outcome (Option (Session S × Bool))
  with_added fuel project s (returns (d, some error)) =
      returns (some (failed (in_world g s d.world) error))
  with_added fuel project s (returns (d, none)) =
      let mounted = g.with_drives (mount_drives (g.drives_of d.world)) d.world in
      returns (with_device fuel project s (set_device g.manager 0 (record d { world = mounted })))
  with_added fuel project s throws = throws
  with_added fuel project s undefined = undefined

  -- The session with its machine and its filesystem.
  abbrev pub with_machine : Session S → Phone S → Session S
  with_machine s p =
      let fs = memory_file_system g.manager.platform in
      record s {
        machine =
            with_world g.sys p (g.manager.add_filesystem fs (g.with_drives fs p.machine.world));
        drives = true;
      }

  abbrev pub rpkg_of : Project → Bytes
  rpkg_of project = if project.present (codes "sym.rpkg") then codes "sym.rpkg" else []

  -- The machine without a device, or with the ROM's.
  abbrev pub init_machine : ℕ → Project → Session S → Outcome (Option (Session S × Bool))
  init_machine fuel project s =
      if not (project.present (codes "sym.rom"))
      then returns (some (record s { inited = true }, true))
      else with_added fuel project s (
          add_device_from_rom g.manager (codes "sym.rom") (rpkg_of project)
            (record { world = world_of g s; rpkg_drive = none }))

  abbrev pub init_with :
      ℕ → Project → Session S → Options × Option Bytes → Outcome (Option (Session S × Bool))
  init_with fuel project s (o, some error) = returns (some (failed s error))
  init_with fuel project s (o, none) = init_machine fuel project (with_machine s (new_machine o))

  -- none where the fuel of a frame's run runs out.
  unfoldable pub init : ℕ → Project → Session S → Outcome (Option (Session S × Bool))
  init fuel project s = init_with fuel project (record s { load_error = [] }) (options_of project)
