-- ===== src/Phone.antt =====
-- The machine of waterbox/machine.h whole: the clock, the emulator, the application choice and the
-- keys in one state, and a frame of its time. Everything that EKA2L1 does is one parameter.
pub mod Frames
use chimera_core_eka2l.Prelude.{
  ℕ, Bool, true, false, not, Option, none, some, List, [], ◌∷◌, Bytes, if◌then◌else◌, ◌==◌,
}
use chimera_core_eka2l.Apps.{AppList, Apps, remember_apps, launch_app, launch_installed_app}
use chimera_core_eka2l.Install.{Emulator}
use chimera_core_eka2l.Keypad.{Event, Keypad, set_button}
use chimera_core_eka2l.Run.{Machine, run_for_us}

-- A thread of the kernel: its name, and whether its state is `stop`.
pub record Thread : Type 0 where
  pub name : Bytes
  pub stopped : Bool

-- What is asked of EKA2L1. `S` is its state, `F` an open file; `start_app` is what a launch by the
-- application list does, and `threads` is none where there is no kernel.
pub record System {ℓ} (S F : Type ℓ) : Type ℓ where
  pub io : Emulator S F
  pub loop : chimera_core_eka2l.Run.Emulator S
  pub app_list : S → Option AppList
  pub start_app : ℕ → S → S
  pub winserv : S → Bool
  pub queue_input_event : Event → S → S
  pub threads : S → Option (List Thread)

-- The fields of `machine` that its operations change.
pub record Phone {ℓ} (S : Type ℓ) : Type ℓ where
  pub machine : Machine S
  pub apps_before_install : List ℕ
  pub launched_uid : ℕ
  pub buttons : List Bool

-- 1000000 / 60.
abbrev pub frame_us : ℕ
frame_us = 16666

module _ {ℓ} {S F : Type ℓ} (sys : System S F) where
  abbrev pub with_world : Phone S → S → Phone S
  with_world p s = record p { machine = record p.machine { world = s } }

  -- The applications as `Apps` has them.
  abbrev pub apps_of : Phone S → Apps
  apps_of p = record {
    applist = sys.app_list p.machine.world;
    apps_before_install = p.apps_before_install;
    launched_uid = p.launched_uid;
  }

  unfoldable pub remember : Phone S → Phone S
  unfolding remember_apps
  remember p = record p { apps_before_install = (remember_apps (apps_of p)).apps_before_install }

  -- The machine after a launch: the emulator has started the application where the note of the one
  -- that runs has changed.
  abbrev pub after_launch : Phone S → Apps → Phone S
  after_launch p a =
      if a.launched_uid == p.launched_uid
      then p
      else with_world (record p { launched_uid = a.launched_uid })
          (sys.start_app a.launched_uid p.machine.world)

  unfoldable pub launch : ℕ → Phone S → Phone S × Bool
  launch uid p = let r = launch_app (apps_of p) uid in (after_launch p r.0, r.1)

  unfoldable pub launch_installed : Phone S → Phone S × ℕ
  launch_installed p = let r = launch_installed_app (apps_of p) in (after_launch p r.0, r.1)

  abbrev pub queue_all : List Event → S → S
  queue_all [] s = s
  queue_all (event ∷ events) s = queue_all events (sys.queue_input_event event s)

  unfoldable pub press : Bool → ℕ → Bool → Phone S → Phone S
  unfolding set_button
  press sign index held p =
      let k =
        set_button sign index held
          record { buttons = p.buttons; winserv = sys.winserv p.machine.world; queued = [] } in
      with_world (record p { buttons = k.buttons }) (queue_all k.queued p.machine.world)

  -- `run_for_us` of one frame; none where the fuel of its loop runs out.
  abbrev pub ran : Phone S → Option (Machine S × ℕ) → Option (Phone S)
  ran p none = none
  ran p (some (machine, loops)) = some (record p { machine = machine })

  unfoldable pub run_frame : ℕ → Phone S → Option (Phone S)
  run_frame fuel p = ran p (run_for_us sys.loop fuel p.machine frame_us)
