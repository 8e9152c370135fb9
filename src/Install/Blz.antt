-- ===== src/Install/Blz.antt =====
-- `install_blz` and `installer_alive` of waterbox/machine.cpp: a .blz card image, unpacked by the
-- Symbian application that can.
pub mod Frames
pub mod Ends
use chimera_core_eka2l.Prelude.{
  ℕ, zero, suc, ◌+◌, ◌-◌, Bool, true, false, not, ◌&&◌, ◌||◌, Option, none, some, List, [], ◌∷◌,
  ◌++◌, map, Bytes, codes, ◌==◌, ltb, is_some, if◌then◌else◌,
}
use chimera_core_eka2l.Install.{HostFiles, drive_c, drive_e, leaf_of, put_file}
use chimera_core_eka2l.Install.Card.{find_from}
use chimera_core_eka2l.Phone.{
  Thread, System, Phone, with_world, remember, launch_installed, press, run_frame,
}

-- Whether a thread that has not stopped is called blzinstapp.
unfoldable pub installer_alive : List Thread → Bool
unfolding find_from
installer_alive [] = false
installer_alive (thread ∷ threads) =
    (is_some (find_from (codes "blzinstapp") thread.name 0) && not thread.stopped)
    || installer_alive threads

abbrev pub soft_left : ℕ
soft_left = 5

abbrev pub options_frame : ℕ
options_frame = 400

abbrev pub install_frame : ℕ
install_frame = 500

abbrev pub give_up_frame : ℕ
give_up_frame = 20000

module _ {ℓ} {S F : Type ℓ} (sys : System S F) where
  -- The keys of a frame.
  unfoldable pub keys : ℕ → Phone S → Phone S
  unfolding press
  keys frame p =
      if frame == options_frame || frame == install_frame
      then press sys false soft_left true p
      else if frame == options_frame + 20 || frame == install_frame + 20
      then press sys false soft_left false p
      else p

  -- Whether the loop breaks after the frame.
  abbrev pub gone : Option (List Thread) → Bool
  gone none = false
  gone (some threads) = not (installer_alive threads)

  unfoldable pub finished : ℕ → Phone S → Bool
  unfolding installer_alive
  finished frame p = ltb (install_frame + 20) frame && gone (sys.threads p.machine.world)

  -- After a frame the loop breaks, or goes on as `rest` says.
  abbrev pub after_frame : ℕ → Option (Phone S) → (Phone S → Option (Phone S)) → Option (Phone S)
  after_frame frame none rest = none
  after_frame frame (some p) rest = let last = rest p in if finished frame p then some p else last

  -- The loop, with the frames that are left; none where the fuel of a frame's run runs out.
  unfoldable pub frames : ℕ → ℕ → ℕ → Phone S → Option (Phone S)
  unfolding keys run_frame
  frames fuel zero frame p = some p
  frames fuel (suc n) frame p =
      after_frame frame (run_frame sys fuel (keys frame p)) (frames fuel n (suc frame))

  -- What follows the loop.
  abbrev pub unpacked : ℕ → Option (Phone S) → Option (Phone S × Bool)
  unpacked installer_uid none = none
  unpacked installer_uid (some p) = some (
    record (with_world sys p (sys.io.announce_drive drive_e p.machine.world)) {
      apps_before_install = p.apps_before_install ++ installer_uid ∷ [];
      launched_uid = 0;
    },
    true,
  )

  abbrev pub unpack : ℕ → Phone S × ℕ → Option (Phone S × Bool)
  unpack fuel (p, installer_uid) =
      if installer_uid == 0
      then some (p, false)
      else unpacked installer_uid (frames fuel give_up_frame 0 p)

  abbrev pub install_installer : ℕ → Bytes → Phone S → Option (Phone S × Bool)
  install_installer fuel installer_path p =
      let r = sys.io.install_package installer_path p.machine.world in
      if not (r.1 == 0)
      then some (with_world sys p r.0, false)
      else unpack fuel (launch_installed sys (with_world sys p (sys.io.announce_drive drive_c r.0)))

  unfoldable pub install_blz : ℕ → HostFiles → Bytes → Bytes → Phone S → Option (Phone S × Bool)
  unfolding frames
  install_blz fuel host blz_path installer_path p =
      let put =
        put_file sys.io host (codes "E:\\" ++ leaf_of [] blz_path) blz_path p.machine.world in
      if not put.1
      then some (with_world sys p put.0, false)
      else install_installer fuel installer_path (remember sys (with_world sys p put.0))
