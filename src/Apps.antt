-- ===== src/Apps.antt =====
-- `remember_apps` and `launch_installed_app` of waterbox/machine.cpp, with `launch_app`: which
-- application is the project's. The application list is the emulator's, a parameter: its
-- registrations in order, and whether it takes a launch.
pub mod Chosen
use chimera_core_eka2l.Prelude.{
  ℕ, Bool, true, false, not, ◌&&◌, ◌||◌, Option, none, some, List, [], ◌∷◌, ltb, ◌==◌,
  if◌then◌else◌,
}

-- The application list server: the UIDs of its registrations, and the answer of its `launch_app`.
pub record AppList : Type 0 where
  pub registerations : List ℕ
  pub launches : ℕ → Bool

-- `app_list(sys)` is none where the server does not run.
pub record Apps : Type 0 where
  pub applist : Option AppList
  pub apps_before_install : List ℕ
  pub launched_uid : ℕ

unfoldable pub remember_apps : Apps → Apps
remember_apps a = elim a.applist [
  | none ↦ record a { apps_before_install = [] }
  | some server ↦ record a { apps_before_install = server.registerations }
]

-- `std::find` over the vector.
unfoldable pub holds : ℕ → List ℕ → Bool
holds uid [] = false
holds uid (x ∷ xs) = x == uid || holds uid xs

-- The loop of `launch_installed_app`; no application has UID 0.
unfoldable pub choose : List ℕ → List ℕ → ℕ → ℕ
choose before [] chosen = chosen
choose before (uid ∷ uids) chosen =
    choose before uids
      (if holds uid before then chosen else if chosen == 0 || ltb uid chosen then uid else chosen)

-- `launch_app`, the address space that it notes left aside.
unfoldable pub launch_app : Apps → ℕ → Apps × Bool
launch_app a uid = elim a.applist [
  | none ↦ (a, false)
  | some server ↦
      if not (holds uid server.registerations)
      then (a, false)
      else if a.launched_uid == uid
      then (a, true)
      else if not (server.launches uid)
      then (a, false)
      else (record a { launched_uid = uid }, true)
]

unfoldable pub launch_installed_app : Apps → Apps × ℕ
launch_installed_app a = elim a.applist [
  | none ↦ (a, 0)
  | some server ↦
      let chosen = choose a.apps_before_install server.registerations 0 in
      if chosen == 0
      then (a, 0)
      else let r = launch_app a chosen in if not r.1 then (r.0, 0) else (r.0, chosen)
]
