-- ===== src/Session/Init/Started.antt =====
-- How `Init` (waterbox/wbx-entry.cpp) ends.
use chimera_core_eka2l.Prelude.{
  ℕ, ◌*◌, ◌≤◌, ◌<◌, ◌≡◌, ◌⊎◌, refl, sym, ap, ◌∙◌, subst, Bool, true, false, Option, none, some, [],
  Bytes, codes, is_empty, Outcome, returns, throws, undefined, Bool-cases, inl, inr,
}
use chimera_core_eka2l.Run.{u32}
use chimera_core_eka2l.Run.Progress.{IsPaced}
use chimera_core_eka2l.Memfs.Types.{FileSystem}
use chimera_core_eka2l.Install.Blz.Ends.{HasRoom}
use chimera_core_eka2l.Devices.{Device, set_device, add_device_from_rom}
use chimera_core_eka2l.Devices.Added.{
  Ended, ended, threw, left_undefined, Lost, add_device_from_rom-Ended,
}
use chimera_core_eka2l.Phone.{Phone, frame_us, remember}
use chimera_core_eka2l.Session.{Guest, Session, Options, world_of, in_world}
use chimera_core_eka2l.Session.Init.Settings.{Project, options_of, game_of}
use chimera_core_eka2l.Session.Init.{
  GameInstall, installed, refused, new_machine, install_game, start_game, game_started, with_game,
  mount_drives, booted, with_device, with_added, with_machine, rpkg_of, init_machine, init_with,
  init,
}
use chimera_core_eka2l.Session.Init.Game.{options_named, IsNamed, install_game-Told}

module _ {ℓ} {S F V : Type ℓ} (g : Guest S F V) (r quota fuel : ℕ)
    (paced : IsPaced quota g.sys.loop) (few : quota < u32) (enough : frame_us * r ≤ fuel) where
  -- What `Init` leaves of a session: it has come up without an error, or it has not, and says why.
  abbrev pub Ends : Session S → Session S × Bool → Type 0
  Ends s (s', true) = (s'.inited ≡ true) × (s'.load_error ≡ s.load_error)
  Ends s (s', false) = (s'.inited ≡ s.inited) × (is_empty s'.load_error ≡ false)

  -- The RPKG that `add_device_from_rom` is given for the project's ROM does not mount.
  abbrev pub Unmounted : Project → Outcome (FileSystem × Option ℕ) → Type 0
  Unmounted project o =
      (project.present (codes "sym.rom") ≡ true)
      × Lost g.manager (codes "sym.rom") (rpkg_of g project)
          (g.manager.should_install_requires_additional_rpkg (codes "sym.rom")) o

  -- Why a session has not come up: `C` says it of the load error.
  abbrev pub Because : (Bytes → Type ℓ) → Session S × Bool → Type ℓ
  Because C (s', true) = Unit
  Because C (s', false) = C s'.load_error

  record Up (C : Bytes → Type ℓ) (s : Session S) (o : Option (Session S × Bool)) : Type ℓ where
    end : Session S × Bool
    result : o ≡ some end
    ends : Ends s end
    why : Because C end

  game_started-Ends :
      (C : Bytes → Type ℓ) (s : Session S) (i : GameInstall S)
      → IsNamed g i
      → ((p : Phone S) (error : Bytes) → i ≡ refused p error → C error)
      → Up C s (game_started g s (some i))
  game_started-Ends C s (refused p error) named why = record {
    end = (record s { machine = p; load_error = error }, false);
    result = refl;
    ends = (refl, named);
    why = why p error refl;
  }
  game_started-Ends C s (installed p result ngage_app) named why = record {
    end = (
      record s {
        machine = (start_game g ngage_app p).0;
        installed = some result;
        launched = (start_game g ngage_app p).1;
        device = true;
        inited = true;
      },
      true,
    );
    result = refl;
    ends = (refl, refl);
    why = tt;
  }

  -- The game of the project does not install, on the machine that is up.
  abbrev pub GameRefused : Project → Session S → Bytes → Type ℓ
  GameRefused project s error =
      (game : Bytes) × (p : Phone S) × (game_of project project.slot_name ≡ some game)
      × (install_game g fuel project game (remember g.sys s.machine) ≡ some (refused p error))

  with_game-Ends :
      (project : Project) (game : Option Bytes) (s : Session S)
      → game_of project project.slot_name ≡ game
      → HasRoom g.sys r quota fuel paced few enough (remember g.sys s.machine)
      → Up (GameRefused project s) s (with_game g fuel project game s)
  with_game-Ends project none s slot room = record {
    end = (record s { device = true; inited = true }, true);
    result = refl;
    ends = (refl, refl);
    why = tt;
  }
  with_game-Ends project (some game) s slot room =
      let t =
        install_game-Told g r quota fuel paced few enough project game (remember g.sys s.machine)
          room in
      subst (Up (GameRefused project s) s) (sym (ap (game_started g s) t.result)) (
        game_started-Ends (GameRefused project s) s t.end t.named
          (λ p error e. (game, p, slot, t.result ∙ ap some e)))

  -- The device is not set, or it is and the game does not install.
  abbrev pub DeviceRefused : Project → Session S → Device S × Bool → Bytes → Type ℓ
  DeviceRefused project s d error =
      ((d.1 ≡ false) × (error ≡ codes "error.rom_device_refused"))
      ⊎ ((d.1 ≡ true) × GameRefused project (booted g s d.0.world) error)

  Because-inr :
      (project : Project) (s : Session S) (d : Device S) (a : Session S × Bool)
      → Because (GameRefused project (booted g s d.world)) a
      → Because (DeviceRefused project s (d, true)) a
  Because-inr project s d (s', true) why = tt
  Because-inr project s d (s', false) why = inr (refl, why)

  with_device-Ends :
      (project : Project) (s : Session S) (d : Device S × Bool)
      → HasRoom g.sys r quota fuel paced few enough s.machine
      → Up (DeviceRefused project s d) s (with_device g fuel project s d)
  unfolding remember
  with_device-Ends project s (d, true) room =
      let u =
        with_game-Ends project (game_of project project.slot_name) (booted g s d.world) refl room in
      record {
        end = u.end;
        result = u.result;
        ends = u.ends;
        why = Because-inr project s d u.end u.why;
      }
  with_device-Ends project s (d, false) room = record {
    end = (record (in_world g s d.world) { load_error = codes "error.rom_device_refused" }, false);
    result = refl;
    ends = (refl, refl);
    why = inl (refl, refl);
  }

  -- What the project's ROM makes of the machine that `Init` has built in the session `t`, and the
  -- device that is set then.
  abbrev pub added_to : Project → Session S → Outcome (Device S × Option Bytes)
  added_to project t =
      add_device_from_rom g.manager (codes "sym.rom") (rpkg_of g project)
        (record { world = world_of g t; rpkg_drive = none })

  abbrev pub set_on : Device S → Device S × Bool
  set_on d =
      set_device g.manager 0
        (record d { world = g.with_drives (mount_drives (g.drives_of d.world)) d.world })

  -- Why `Init` answers 0: the clock's start is no date; or the project has a ROM, and it makes no
  -- device, or its device cannot be set, or the game does not install. The load error says which.
  pub data Refusal (project : Project) (t : Session S) (error : Bytes) : Type ℓ where
    bad_clock_start : (options_of project).1 ≡ some error → Refusal project t error
    no_device :
        (d : Device S)
        → project.present (codes "sym.rom") ≡ true
        → added_to project t ≡ returns (d, some error)
        → Refusal project t error
    not_set_up :
        (d : Device S)
        → project.present (codes "sym.rom") ≡ true
        → added_to project t ≡ returns (d, none)
        → DeviceRefused project t (set_on d) error
        → Refusal project t error

  -- How the whole of it ends: it has come up, or it has not and says why; or the project has a ROM
  -- that needs an RPKG, and the mounting of the project's RPKG ends in the same way without a return.
  -- `t` is the session with the machine that is built.
  pub data InitEnds (project : Project) (t s : Session S) (o : Outcome (Option (Session S × Bool)))
      : Type ℓ where
    returned :
        (r' : Session S × Bool)
        → o ≡ returns (some r')
        → Ends s r'
        → Because (Refusal project t) r'
        → InitEnds project t s o
    no_mount : o ≡ throws → Unmounted project throws → InitEnds project t s o
    undefined_mount : o ≡ undefined → Unmounted project undefined → InitEnds project t s o

  Because-set :
      (project : Project) (s : Session S) (d : Device S) (a : Session S × Bool)
      → project.present (codes "sym.rom") ≡ true
      → added_to project s ≡ returns (d, none)
      → Because (DeviceRefused project s (set_on d)) a
      → Because (Refusal project s) a
  Because-set project s d (s', true) there e why = tt
  Because-set project s d (s', false) there e why = not_set_up d there e why

  with_added-Ends :
      (project : Project) (s : Session S)
      → project.present (codes "sym.rom") ≡ true
      → Ended g.manager
          (codes "sym.rom")
          (rpkg_of g project)
          (g.manager.should_install_requires_additional_rpkg (codes "sym.rom"))
          (record { world = world_of g s; rpkg_drive = none })
          (added_to project s)
      → HasRoom g.sys r quota fuel paced few enough s.machine
      → InitEnds project s s (with_added g fuel project s (added_to project s))
  with_added-Ends project s there (threw e lost) room =
      subst (InitEnds project s s) (ap (with_added g fuel project s) (sym e))
        (no_mount refl (there, lost))
  with_added-Ends project s there (left_undefined e lost) room =
      subst (InitEnds project s s) (ap (with_added g fuel project s) (sym e))
        (undefined_mount refl (there, lost))
  with_added-Ends project s there (ended (d, some error) e known) room =
      subst (InitEnds project s s) (ap (with_added g fuel project s) (sym e)) (
        returned (record (in_world g s d.world) { load_error = error }, false) refl
          (refl, known.named) (no_device d there e))
  with_added-Ends project s there (ended (d, none) e known) room =
      let u = with_device-Ends project s (set_on d) room in
      subst (InitEnds project s s) (ap (with_added g fuel project s) (sym e))
        (returned u.end (ap returns u.result) u.ends (Because-set project s d u.end there e u.why))

  init_machine-Ends :
      (project : Project) (s : Session S)
      → HasRoom g.sys r quota fuel paced few enough s.machine
      → InitEnds project s s (init_machine g fuel project s)
  init_machine-Ends project s room = elim (Bool-cases (project.present (codes "sym.rom"))) [
    | inl there ↦ rw there (
        with_added-Ends project s there
          (add_device_from_rom-Ended g.manager (codes "sym.rom") (rpkg_of g project)
            (record { world = world_of g s; rpkg_drive = none }))
          room)
    | inr empty ↦ rw empty (returned (record s { inited = true }, true) refl (refl, refl) tt)
  ]

  -- An end seen from a session with the same notes.
  InitEnds-back :
      (project : Project) (s t : Session S) (o : Outcome (Option (Session S × Bool)))
      → t.inited ≡ s.inited
      → t.load_error ≡ s.load_error
      → InitEnds project t t o
      → InitEnds project t s o
  InitEnds-back project s t o inited error (returned (s', true) h e why) =
      returned (s', true) h (e.0, e.1 ∙ error) why
  InitEnds-back project s t o inited error (returned (s', false) h e why) =
      returned (s', false) h (e.0 ∙ inited, e.1) why
  InitEnds-back project s t o inited error (no_mount h lost) = no_mount h lost
  InitEnds-back project s t o inited error (undefined_mount h lost) = undefined_mount h lost

  init_with-Ends :
      (project : Project) (s : Session S) (o : Options) (error : Option Bytes)
      → HasRoom g.sys r quota fuel paced few enough (new_machine g o)
      → (options_of project).1 ≡ error
      → ((text : Bytes) → error ≡ some text → is_empty text ≡ false)
      → InitEnds project
          (with_machine g s (new_machine g o))
          s
          (init_with g fuel project s (o, error))
  init_with-Ends project s o none room given named =
      InitEnds-back project s (with_machine g s (new_machine g o))
        (init_with g fuel project s (o, none)) refl refl
        (init_machine-Ends project (with_machine g s (new_machine g o)) room)
  init_with-Ends project s o (some error) room given named =
      returned (record s { load_error = error }, false) refl (refl, named error refl)
        (bad_clock_start given)

  -- For an emulator whose loop reports at most `quota` instructions a call, with fuel for a frame and
  -- room on the new machine's clock for 20000 frames: `Init` answers 1, the session has come up and has
  -- no load error; or it answers 0, the session is no more up than it was, and the load error has a
  -- text, that of the clock start that is no date, of the ROM that makes no device, of its device that
  -- cannot be set or of the game that does not install; or it does not return, and then the project has
  -- a ROM that needs an RPKG, and the mounting of the project's own RPKG ends in that very way.
  pub init-InitEnds :
      (project : Project) (s : Session S)
      → HasRoom g.sys r quota fuel paced few enough (new_machine g (options_of project).0)
      → let fresh : Session S = record s { load_error = [] } in
        InitEnds project
          (with_machine g fresh (new_machine g (options_of project).0))
          fresh
          (init g fuel project s)
  unfolding init
  init-InitEnds project s room =
      init_with-Ends project (record s { load_error = [] }) (options_of project).0
        (options_of project).1 room refl (options_named project)
