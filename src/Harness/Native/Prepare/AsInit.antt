-- ===== src/Harness/Native/Prepare/AsInit.antt =====
-- The native reference makes the machine that `Init` of waterbox/wbx-entry.cpp makes.
use chimera_core_eka2l.Prelude.{
  ℕ, ◌≡◌, refl, sym, ap, ◌∙◌, subst, Bool, true, false, not, Option, none, some, [], Bytes, codes,
  is_empty, ◌==◌, if◌then◌else◌, Outcome, returns, throws, undefined,
}
use chimera_core_eka2l.Devices.{Device, add_device_from_rom, set_device, boot}
use chimera_core_eka2l.Phone.{Phone, with_world}
use chimera_core_eka2l.Session.{Guest, Session, in_world}
use chimera_core_eka2l.Session.Init
use chimera_core_eka2l.Session.Init.{init, install_game, start_game, mount_drives}
use chimera_core_eka2l.Session.Init.Settings
use chimera_core_eka2l.Session.Init.Settings.{Project, ends_with, game_of, set_up}
use chimera_core_eka2l.Harness.Native.Args.{Arguments}
use chimera_core_eka2l.Harness.Native.Prepare
use chimera_core_eka2l.Harness.Native.Prepare.{
  Prepared, ready, exits, Surroundings, prepare, install_all, made, options_of,
}
use chimera_core_eka2l.Harness.Native.Prepare.Game.{
  with_rom, over, refuted, of_returns, Asks, asks_ngage, asks_blz, asks_card, Same, game_Same,
}

-- What the arguments say of the machine before its game.
record IsFor (project : Project) (rpkg : Bytes) (a : Arguments) : Type 0 where
  options : options_of a ≡ set_up project
  no_gpu : a.gpu ≡ false
  storage : a.storage ≡ codes "data"
  rom : a.rom_only_path ≡ codes "sym.rom"
  rpkg_file : a.rpkg_path ≡ rpkg

module _ {ℓ} {S F V : Type ℓ} (g : Guest S F V) (project : Project) (e : Surroundings S) where
  module _ (fuel : ℕ) (rpkg game : Bytes) (named : is_empty game ≡ false) where
    device_Same :
        (a : Arguments) (s : Session S) (d : Device S × Bool)
        → a.storage ≡ codes "data"
        → game_of project project.slot_name ≡ some game
        → Asks g project e game a (with_rom project rpkg)
        → Same g project e (Init.with_device g fuel project s d) (
            install_all g
              (over project e)
              fuel
              true
              a
              (with_world g.sys s.machine (Prepare.booted g (over project e) true a d)))
    device_Same a s (d, false) data' slot asks s' h =
        refuted (Init.with_device g fuel project s (d, false)) s' refl h
    device_Same a s (d, true) data' slot asks s' h =
        ap
          (λ t. install_all g (over project e) fuel true a (
            with_world g.sys s.machine (
              g.sys.io.announce_drive 4 (
                g.sys.io.announce_drive 3
                  (g.sys.io.announce_drive 2 (boot g.manager true t d.world))))))
          data'
        ∙ game_Same g project e fuel rpkg game named a (Init.booted g s d.world) asks s'
            (sym (ap (λ o. Init.with_game g fuel project o (Init.booted g s d.world)) slot) ∙ h)

    -- The device that was added is counted.
    abbrev pub Counted : Outcome (Device S × Option Bytes) → Type ℓ
    Counted o =
        (d : Device S)
        → o ≡ returns (d, none)
        → (e.device_count (g.with_drives (mount_drives (g.drives_of d.world)) d.world) == 0) ≡ false

    added_Same :
        (a : Arguments) (s : Session S) (p : Phone S) (o : Outcome (Device S × Option Bytes))
        → a.storage ≡ codes "data"
        → game_of project project.slot_name ≡ some game
        → Asks g project e game a (with_rom project rpkg)
        → Counted o
        → (s' : Session S)
        → Init.with_added g fuel project (Init.with_machine g s p) o ≡ returns (some (s', true))
        → Prepare.with_added g (over project e) fuel a p o ≡ returns (some (ready s'.machine))
    added_Same a s p (returns (d, some error)) data' slot asks counted s' h =
        refuted (some (Init.failed g (in_world g (Init.with_machine g s p) d.world) error)) s' refl
          (of_returns _ _ h)
    added_Same a s p (returns (d, none)) data' slot asks counted s' h =
        let mounted = g.with_drives (mount_drives (g.drives_of d.world)) d.world in
        let up = record d { world = mounted } in
        let device = set_device g.manager 0 up in
        rw (counted d refl) (
          ap returns
            (device_Same a (Init.with_machine g s p) device data' slot asks s' (of_returns _ _ h)))
    added_Same a s p throws data' slot asks counted s' h = cc
    added_Same a s p undefined data' slot asks counted s' h = cc

  made-new_machine :
      (a : Arguments)
      → options_of a ≡ set_up project
      → a.gpu ≡ false
      → g.osmesa_start ≡ false
      → made g (over project e) a ≡ some (Init.new_machine g (set_up project))
  unfolding made Init.new_machine
  made-new_machine a options no_gpu no_gl =
      let o = set_up project in
      ap
        (λ b. Prepare.with_made g (over project e) (options_of a) (
          if b
          then if e.make_context then some (g.start_graphics (g.start (options_of a))).0 else none
          else some (g.start_null_graphics (g.start (options_of a)))))
        no_gpu
      ∙ ap (λ t. some (Prepare.made_of g (over project e) t (g.start_null_graphics (g.start t))))
          options
      ∙ sym (
          ap
            (λ b. some (
              Prepare.made_of g (over project e) o (
                Init.with_graphics g
                  (if b then g.start_graphics (g.start o) else (g.start o, false)))))
            no_gl)

  no_clock_start :
      project.setting (codes "clockStart") ≡ none
      → Settings.options_of project ≡ (set_up project, none)
  unfolding Settings.options_of
  no_clock_start h = ap (Settings.started_at project (set_up project)) h

  abbrev pub added : Bytes → Phone S → Outcome (Device S × Option Bytes)
  added rpkg p =
      add_device_from_rom g.manager (codes "sym.rom") rpkg
        (record { world = Prepare.with_drives g (over project e) p; rpkg_drive = none })

  prepare_for :
      (fuel : ℕ) (a : Arguments) (game : Bytes) (s s' : Session S)
      → IsFor project (Init.rpkg_of g project) a
      → g.osmesa_start ≡ false
      → project.setting (codes "clockStart") ≡ none
      → project.present (codes "sym.rom") ≡ true
      → game_of project project.slot_name ≡ some game
      → (named : is_empty game ≡ false)
      → Asks g project e game a (with_rom project (Init.rpkg_of g project))
      → Counted fuel
          (Init.rpkg_of g project)
          game
          named
          (added (Init.rpkg_of g project) (Init.new_machine g (set_up project)))
      → init g fuel project s ≡ returns (some (s', true))
      → prepare g (over project e) fuel a ≡ returns (some (ready s'.machine))
  unfolding prepare init
  prepare_for fuel a game s s' for no_gl no_clock rom slot named asks counted h =
      let p = Init.new_machine g (set_up project) in
      let rpkg = Init.rpkg_of g project in
      let s0 : Session S = record s { load_error = [] } in
      let came : init g fuel project s
          ≡ Init.with_added g fuel project (Init.with_machine g s0 p) (added rpkg p) =
        ap (Init.init_with g fuel project s0) (no_clock_start no_clock)
        ∙ ap
            (λ b.
              if not b
              then returns (some (record (Init.with_machine g s0 p) { inited = true }, true))
              else Init.with_added g fuel project (Init.with_machine g s0 p) (added rpkg p))
            rom in
      ap (Prepare.with_machine g (over project e) fuel a)
        (made-new_machine a for.options for.no_gpu no_gl)
      ∙ rw (for.rom, for.rpkg_file)
          (added_Same fuel rpkg game named a s0 p (added rpkg p) for.storage slot asks counted s'
            (sym came ∙ h))

  Asks-IsFor :
      (a : Arguments) (rpkg game : Bytes)
      → Asks g project e game a (with_rom project rpkg)
      → IsFor project rpkg a
  unfolding options_of
  Asks-IsFor a rpkg game (asks_ngage kind same) =
      subst (IsFor project rpkg) (sym same)
        (record { options = refl; no_gpu = refl; storage = refl; rom = refl; rpkg_file = refl })
  Asks-IsFor a rpkg game (asks_blz kind blz same) =
      subst (IsFor project rpkg) (sym same)
        (record { options = refl; no_gpu = refl; storage = refl; rom = refl; rpkg_file = refl })
  Asks-IsFor a rpkg game (asks_card kind blz files same) =
      subst (IsFor project rpkg) (sym same)
        (record { options = refl; no_gpu = refl; storage = refl; rom = refl; rpkg_file = refl })

  -- The native reference makes the machine that the sandbox makes: for a project with a ROM and a game,
  -- where the sandbox has no OpenGL of its own, the project sets no clock start, a card has files, and
  -- a device that was added is counted, if `Init` answers 1, then the reference, given the same files by
  -- the arguments for the game's kind, is ready for its frames with the very machine that `Init` leaves.
  pub prepare-init :
      (fuel : ℕ) (a : Arguments) (game : Bytes) (s s' : Session S)
      → g.osmesa_start ≡ false
      → project.setting (codes "clockStart") ≡ none
      → project.present (codes "sym.rom") ≡ true
      → game_of project project.slot_name ≡ some game
      → (named : is_empty game ≡ false)
      → Asks g project e game a (with_rom project (Init.rpkg_of g project))
      → Counted fuel
          (Init.rpkg_of g project)
          game
          named
          (added (Init.rpkg_of g project) (Init.new_machine g (set_up project)))
      → init g fuel project s ≡ returns (some (s', true))
      → prepare g (over project e) fuel a ≡ returns (some (ready s'.machine))
  prepare-init fuel a game s s' no_gl no_clock rom slot named asks =
      prepare_for fuel a game s s' (Asks-IsFor a (Init.rpkg_of g project) game asks) no_gl no_clock
        rom slot named asks
