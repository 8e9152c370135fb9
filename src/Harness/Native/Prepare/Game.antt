-- ===== src/Harness/Native/Prepare/Game.antt =====
-- What is installed and started, in waterbox/run-native.cpp and in `Init` of waterbox/wbx-entry.cpp.
use chimera_core_eka2l.Prelude.{
  ℕ, ◌≡◌, refl, sym, ap, ◌∙◌, Bool, true, false, Option, none, some, [], ◌∷◌, Bytes, codes,
  is_empty, ltb, ◌==◌, Outcome, returns, Bool-cases, inl, inr,
}
use chimera_core_eka2l.Install.{install_ngage}
use chimera_core_eka2l.Install.Card.{install_card}
use chimera_core_eka2l.Install.Blz.{install_blz}
use chimera_core_eka2l.Phone.{Phone, with_world, remember, launch, launch_installed}
use chimera_core_eka2l.Session.{Guest, Session}
use chimera_core_eka2l.Session.Init
use chimera_core_eka2l.Session.Init.{init, install_game, start_game, mount_drives}
use chimera_core_eka2l.Session.Init.Settings.{Project, ends_with, set_up}
use chimera_core_eka2l.Harness.Native.Args.{Arguments, no_arguments, split_at}
use chimera_core_eka2l.Harness.Native.Prepare
use chimera_core_eka2l.Harness.Native.Prepare.{
  Prepared, ready, exits, Surroundings, prepare, install_all, made, options_of,
}

-- The reference's arguments for a project, but for its game.
abbrev pub with_rom : Project → Bytes → Arguments
with_rom project rpkg = record no_arguments {
  rom_only_path = codes "sym.rom";
  rpkg_path = rpkg;
  screen_buffer_sync = (set_up project).screen_buffer_sync;
  hw_gles1 = (set_up project).hw_gles1;
}

abbrev pub for_ngage : Arguments → Bytes → Arguments
for_ngage a game = record a { ngage_path = game; ngage_launcher = codes "ngage.sis" ∷ [] }

abbrev pub for_blz : Arguments → Bytes → Arguments
for_blz a game = record a { blz_path = game; blz_installer = codes "blzinstapp.sis" }

abbrev pub for_card : Arguments → Bytes → Arguments
for_card a game = record a { card_path = game }

-- The surroundings of a run over the project's files.
abbrev pub over {ℓ} : {S : Type ℓ} → Project → Surroundings S → Surroundings S
over project e = record e { host = project.host; archive = project.archive }

abbrev machine_of {ℓ} : {S : Type ℓ} → Phone S → Option (Session S × Bool) → Phone S
machine_of p none = p
machine_of p (some (s, answer)) = s.machine

abbrev answer_of {ℓ} : {S : Type ℓ} → Option (Session S × Bool) → Bool
answer_of none = false
answer_of (some (s, answer)) = answer

pub refuted {ℓ} :
    {A : Type ℓ} {S : Type ℓ} (o : Option (Session S × Bool)) (s : Session S)
    → answer_of o ≡ false
    → o ≡ some (s, true)
    → A
refuted o s h k = let e = ap answer_of k in cc

pub of_returns {ℓ} : {A : Type ℓ} (a b : A) → ◌≡◌ {A = Outcome A} (returns a) (returns b) → a ≡ b
of_returns a b h = cc

module _ {ℓ} {S F V : Type ℓ} (g : Guest S F V) (project : Project) (e : Surroundings S) where
  -- The arguments say which of the three kinds the game is.
  pub data Asks (game : Bytes) (a b : Arguments) : Type ℓ where
    asks_ngage : ends_with game (codes ".n-gage") ≡ true → a ≡ for_ngage b game → Asks game a b
    asks_blz :
        ends_with game (codes ".n-gage") ≡ false
        → ends_with game (codes ".blz") ≡ true
        → a ≡ for_blz b game
        → Asks game a b
    asks_card :
        ends_with game (codes ".n-gage") ≡ false
        → ends_with game (codes ".blz") ≡ false
        → ((w : S) → ltb 0 (install_card g.sys.io (project.archive game) w).1 ≡ true)
        → a ≡ for_card b game
        → Asks game a b

  -- Where the one comes up, the other is ready with its machine.
  abbrev pub Same : Option (Session S × Bool) → Option (Prepared S) → Type ℓ
  Same o n = (s' : Session S) → o ≡ some (s', true) → n ≡ some (ready s'.machine)

  start_uid :
      (uid : ℕ) (p : Phone S) → (uid == 0) ≡ false → (start_game g uid p).0 ≡ (launch g.sys uid p).0
  unfolding start_game
  start_uid uid p app = rw app refl

  ngage_started :
      (a : Arguments) (s : Session S) (q : Phone S) (r : S × ℕ) (s' : Session S)
      → Init.game_started g s (some (Init.ngage_installed g q r)) ≡ some (s', true)
      → Prepare.started g e a (with_world g.sys q r.0) r.1 ≡ s'.machine
  ngage_started a s q (w, uid) s' h = elim (Bool-cases (uid == 0)) [
    | inl refused ↦
        refuted (Init.game_started g s (some (Init.ngage_installed g q (w, uid)))) s'
          (rw refused refl) h
    | inr app ↦
        let p = with_world g.sys q w in
        let up : Init.ngage_installed g q (w, uid) ≡ Init.installed p 0 uid = rw app refl in
        rw app (
          sym (start_uid uid p app)
          ∙ ap (machine_of q) (sym (ap (λ i. Init.game_started g s (some i)) up) ∙ h))
  ]

  module _ (fuel : ℕ) (rpkg game : Bytes) (named : is_empty game ≡ false) where
    ngage_Same :
        (s : Session S)
        → ends_with game (codes ".n-gage") ≡ true
        → Same (Init.with_game g fuel project (some game) s) (
            install_all g
              (over project e)
              fuel
              true
              (for_ngage (with_rom project rpkg) game)
              s.machine)
    unfolding install_all install_game split_at
    ngage_Same s kind s' h =
        let q = remember g.sys s.machine in
        rw named (
          ap (λ p. some (ready p))
            (ngage_started (for_ngage (with_rom project rpkg) game) s q
              (install_ngage g.sys.io project.host game (codes "ngage.sis" ∷ []) q.machine.world) s'
              (sym (rw kind refl) ∙ h)))

    blz_started :
        (s : Session S) (x : Option (Phone S × Bool)) (s' : Session S)
        → Init.game_started g s (Init.blz_unpacked g x) ≡ some (s', true)
        → Prepare.then_rest g
            (over project e)
            true
            (for_blz (with_rom project rpkg) game)
            (Prepare.without_answer g (over project e) x)
          ≡ some (ready s'.machine)
    unfolding start_game split_at
    blz_started s none s' h = cc
    blz_started s (some (p, false)) s' h =
        refuted (Init.game_started g s (Init.blz_unpacked g (some (p, false)))) s' refl h
    blz_started s (some (p, true)) s' h = rw named (ap (λ m. some (ready m)) (ap (machine_of p) h))

    card_started :
        (s : Session S) (q : Phone S) (r : S × ℕ) (s' : Session S)
        → ltb 0 r.1 ≡ true
        → Init.game_started g s (some (Init.from_card g game q r)) ≡ some (s', true)
        → (launch_installed g.sys (Init.announce g 4 (with_world g.sys q r.0))).0 ≡ s'.machine
    unfolding start_game
    card_started s q (w, n) s' files h =
        let up : Init.from_card g game q (w, n)
            ≡ Init.installed (Init.announce g 4 (with_world g.sys q w)) 0 0 =
          rw files refl in
        ap (machine_of q) (sym (ap (λ i. Init.game_started g s (some i)) up) ∙ h)

    blz_Same :
        (s : Session S)
        → ends_with game (codes ".n-gage") ≡ false
        → ends_with game (codes ".blz") ≡ true
        → Same (Init.with_game g fuel project (some game) s) (
            install_all g
              (over project e)
              fuel
              true
              (for_blz (with_rom project rpkg) game)
              s.machine)
    unfolding install_all install_game split_at
    blz_Same s kind blz s' h =
        let q = remember g.sys s.machine in
        rw named (
          blz_started s (install_blz g.sys fuel project.host game (codes "blzinstapp.sis") q) s'
            (sym (rw (kind, blz) refl) ∙ h))

    card_Same :
        (s : Session S)
        → ends_with game (codes ".n-gage") ≡ false
        → ends_with game (codes ".blz") ≡ false
        → ((w : S) → ltb 0 (install_card g.sys.io (project.archive game) w).1 ≡ true)
        → Same (Init.with_game g fuel project (some game) s) (
            install_all g
              (over project e)
              fuel
              true
              (for_card (with_rom project rpkg) game)
              s.machine)
    unfolding install_all install_game split_at
    card_Same s kind blz files s' h =
        let q = remember g.sys s.machine in
        rw named (
          ap (λ p. some (ready p))
            (card_started s q (install_card g.sys.io (project.archive game) q.machine.world) s'
              (files q.machine.world) (sym (rw (kind, blz) refl) ∙ h)))

    pub game_Same :
        (a : Arguments) (s : Session S)
        → Asks game a (with_rom project rpkg)
        → Same
            (Init.with_game g fuel project (some game) s)
            (install_all g (over project e) fuel true a s.machine)
    game_Same a s (asks_ngage kind same) s' h =
        ap (λ b. install_all g (over project e) fuel true b s.machine) same ∙ ngage_Same s kind s' h
    game_Same a s (asks_blz kind blz same) s' h =
        ap (λ b. install_all g (over project e) fuel true b s.machine) same
        ∙ blz_Same s kind blz s' h
    game_Same a s (asks_card kind blz files same) s' h =
        ap (λ b. install_all g (over project e) fuel true b s.machine) same
        ∙ card_Same s kind blz files s' h
