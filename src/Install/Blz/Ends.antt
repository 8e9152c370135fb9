-- ===== src/Install/Blz/Ends.antt =====
-- How `install_blz` (waterbox/machine.cpp) ends.
use chimera_core_eka2l.Prelude.{
  ℕ, ◌+◌, ◌*◌, ◌≤◌, ◌<◌, ◌≡◌, ◌≢◌, ◌⊎◌, refl, sym, ap, ◌∙◌, subst, Bool, true, false, Option, some,
  List, [], ◌∷◌, ◌++◌, Bytes, codes, ◌==◌, arith, Bool-cases, inl, inr,
}
use chimera_core_eka2l.Vclock.{u64}
use chimera_core_eka2l.Run.{u32}
use chimera_core_eka2l.Run.Progress.{IsRunning, IsPaced}
use chimera_core_eka2l.Install.{HostFiles, drive_c, drive_e, leaf_of, put_file}
use chimera_core_eka2l.Install.Blz.{
  install_frame, give_up_frame, unpacked, unpack, install_installer, install_blz,
}
use chimera_core_eka2l.Phone.{System, Phone, frame_us, with_world, remember, launch_installed}
use chimera_core_eka2l.Install.Blz.Frames.{is_up, frames-Unpacked}

module _ {ℓ} {S F : Type ℓ} (sys : System S F) (r quota fuel : ℕ) (paced : IsPaced quota sys.loop)
    (few : quota < u32) (enough : frame_us * r ≤ fuel) where
  launch_clock : (p : Phone S) → (launch_installed sys p).0.machine.clock ≡ p.machine.clock
  unfolding launch_installed
  launch_clock p = ground arith

  launch_apps :
      (p : Phone S) → (launch_installed sys p).0.apps_before_install ≡ p.apps_before_install
  unfolding launch_installed
  launch_apps p = ground arith

  -- What `install_blz` answers, and leaves of the clock, the keys and the applications.
  pub record Installed (before : List ℕ) (p : Phone S) (o : Option (Phone S × Bool)) : Type ℓ where
    pub phone : Phone S
    pub answer : Bool
    pub result : o ≡ some (phone, answer)
    pub running : IsRunning r phone.machine.clock
    pub ended :
        ((answer ≡ false) × (phone.machine.clock ≡ p.machine.clock))
        ⊎ ((answer ≡ true)
            × ((p.machine.clock.now_us + (install_frame + 22) * frame_us
                  ≤ phone.machine.clock.now_us)
                × ((is_up phone.buttons ≡ true)
                    × ((phone.launched_uid ≡ 0)
                        × ((uid : ℕ) × ((uid ≢ 0)
                              × (phone.apps_before_install ≡ before ++ uid ∷ [])))))))

  -- A clock at the rate with room for the loop.
  abbrev pub HasRoom : Phone S → Type 0
  HasRoom p =
      IsRunning r p.machine.clock
      × (p.machine.clock.now_us + r + give_up_frame * (frame_us + quota * 1000000) < u64)

  unpack-Installed :
      (p : Phone S) (uid : ℕ)
      → HasRoom p
      → Installed p.apps_before_install p (unpack sys fuel (p, uid))
  unpack-Installed p uid (run, room) = elim (Bool-cases (uid == 0)) [
    | inl none' ↦ rw none' (record {
      phone = p;
      answer = false;
      result = refl;
      running = run;
      ended = inl (refl, refl);
    })
    | inr app ↦
        let u =
          frames-Unpacked sys r quota fuel paced few enough give_up_frame 0 p refl run room
            (λ late. ground (arith, late)) in
        rw app (record {
          phone =
              record (with_world sys u.phone
                (sys.io.announce_drive drive_e u.phone.machine.world)) {
                  apps_before_install = u.phone.apps_before_install ++ uid ∷ [];
                  launched_uid = 0;
                };
          answer = true;
          result = ap (unpacked sys uid) u.result;
          running = u.running;
          ended = inr (
            refl,
            (
              u.later,
              (
                u.up,
                (refl, (uid, ((λ e. ground (arith, app, e)), ap (λ t. t ++ uid ∷ []) u.same))),
              ),
            ),
          );
        })
  ]

  -- The result of one that keeps the clock and the notes, seen from before it.
  Installed-back :
      (before : List ℕ) (p q : Phone S) (o : Option (Phone S × Bool))
      → q.machine.clock ≡ p.machine.clock
      → Installed before q o
      → Installed before p o
  Installed-back before p q o same i = record {
    phone = i.phone;
    answer = i.answer;
    result = i.result;
    running = i.running;
    ended = elim i.ended [
      | inl (false', still) ↦ inl (false', still ∙ same)
      | inr (true', (later, rest)) ↦
          inr (true', (omega (arith, later, ap (λ c. c.now_us) same), rest))
    ];
  }

  install_installer-Installed :
      (installer_path : Bytes) (p : Phone S)
      → HasRoom p
      → Installed p.apps_before_install p (install_installer sys fuel installer_path p)
  install_installer-Installed installer_path p room =
      let i = sys.io.install_package installer_path p.machine.world in
      let told = with_world sys p (sys.io.announce_drive drive_c i.0) in
      let l = launch_installed sys told in
      let c = launch_clock told in
      elim (Bool-cases (i.1 == 0)) [
        | inl installed ↦ rw installed (
            Installed-back p.apps_before_install p l.0 (unpack sys fuel l) c (
              subst (λ b. Installed b l.0 (unpack sys fuel l)) (launch_apps told)
                (unpack-Installed l.0 l.1 (
                  subst
                    (λ t.
                      IsRunning r t
                      × (t.now_us + r + give_up_frame * (frame_us + quota * 1000000) < u64))
                    (sym c) room))))
        | inr refused ↦ rw refused (record {
          phone = with_world sys p i.0;
          answer = false;
          result = refl;
          running = room.0;
          ended = inl (refl, refl);
        })
      ]

  -- The applications that the machine has when the card image is on its drive.
  abbrev pub before_installer : HostFiles → Bytes → Phone S → Phone S
  before_installer host blz_path p = remember sys (
      with_world sys p
        (put_file sys.io host (codes "E:\\" ++ leaf_of [] blz_path) blz_path p.machine.world).0)

  -- `install_blz` returns, for every emulator whose loop reports at most `quota` instructions a call
  -- (with fuel for a frame and room on the clock for 20000 frames). It answers false, and no time has
  -- passed; or it answers true, and 522 frames have passed at least, the soft key is up, no application
  -- counts as started, and the installer's UID follows those that the machine had.
  pub install_blz-Installed :
      (host : HostFiles) (blz_path installer_path : Bytes) (p : Phone S)
      → HasRoom p
      → Installed
          (before_installer host blz_path p).apps_before_install
          p
          (install_blz sys fuel host blz_path installer_path p)
  unfolding install_blz remember
  install_blz-Installed host blz_path installer_path p room =
      let put =
        put_file sys.io host (codes "E:\\" ++ leaf_of [] blz_path) blz_path p.machine.world in
      elim (Bool-cases put.1) [
        | inl there ↦ rw there (
            Installed-back (before_installer host blz_path p).apps_before_install p
              (before_installer host blz_path p)
              (install_installer sys fuel installer_path (before_installer host blz_path p)) refl
              (install_installer-Installed installer_path (before_installer host blz_path p) room))
        | inr missing ↦ rw missing (record {
          phone = with_world sys p put.0;
          answer = false;
          result = refl;
          running = room.0;
          ended = inl (refl, refl);
        })
      ]
