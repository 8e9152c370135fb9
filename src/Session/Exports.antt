-- ===== src/Session/Exports.antt =====
-- The exports of waterbox/wbx-entry.cpp that the host calls between the frames.
use chimera_core_eka2l.Prelude.{ℕ, Bool, not, ◌||◌, Option, none, some, ◌==◌, if◌then◌else◌, length}
use chimera_core_eka2l.Vclock.{elapsed_us}
use chimera_core_eka2l.Apps.{AppList, holds}
use chimera_core_eka2l.Memfs.Entries.{entry_count, written_bytes}
use chimera_core_eka2l.Phone.{press}
use chimera_core_eka2l.Session.{Guest, Session, world_of, in_world}

module _ {ℓ} {S F V : Type ℓ} (g : Guest S F V) where
  -- `sign` says that the number is negative.
  unfoldable pub set_button : Bool → ℕ → ℕ → Session S → Session S
  set_button sign index state s =
      if s.inited
      then record s { machine = press g.sys sign index (not (state == 0)) s.machine }
      else s

  unfoldable pub set_timer_check_us : Bool → ℕ → Session S → Session S
  set_timer_check_us sign us s =
      if not s.inited || sign || us == 0 || not (s.timer.event == 0)
      then s
      else let r = g.register_event (world_of g s) in
        record (in_world g s (g.schedule_event us r.1 r.0)) {
          timer = record s.timer { period_us = us; event = r.1 };
        }

  abbrev pub launch_on : Option AppList → ℕ → Session S → Session S × ℕ
  launch_on none uid s = (s, 0)
  launch_on (some server) uid s =
      if not (holds uid server.registerations)
      then (s, 0)
      else let r = g.launch_registered uid (world_of g s) in
        (in_world g s r.0, if r.1 then 1 else 0)

  unfoldable pub launch_app_uid : ℕ → Session S → Session S × ℕ
  launch_app_uid uid s =
      if not s.device
      then (s, 0)
      else if uid == s.launched
      then (s, 1)
      else launch_on (g.sys.app_list (world_of g s)) uid s

  abbrev pub registered : Option AppList → ℕ
  registered none = 0
  registered (some server) = length server.registerations

  unfoldable pub get_app_count : Session S → ℕ
  get_app_count s = if not s.device then 0 else registered (g.sys.app_list (world_of g s))

  unfoldable pub get_drive_entries : Session S → ℕ
  unfolding entry_count
  get_drive_entries s = if s.drives then entry_count (g.drives_of (world_of g s)) else 0

  unfoldable pub get_drive_written_bytes : Session S → ℕ
  unfolding written_bytes
  get_drive_written_bytes s = if s.drives then written_bytes (g.drives_of (world_of g s)) else 0

  unfoldable pub get_virtual_us : Session S → ℕ
  unfolding elapsed_us
  get_virtual_us s = if s.inited then elapsed_us s.machine.machine.clock else 0

  unfoldable pub get_clock_now_us : Session S → ℕ
  get_clock_now_us s = if s.inited then s.machine.machine.clock.now_us else 0

  unfoldable pub get_instructions : Session S → ℕ
  get_instructions s = if s.inited then s.machine.machine.clock.instructions else 0

  unfoldable pub get_bus_count : Session S → ℕ
  get_bus_count s = if s.device then 1 else 0
