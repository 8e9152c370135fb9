-- ===== src/Session/Init/Game.antt =====
-- How the options are read and the game is installed in `Init` (waterbox/wbx-entry.cpp).
use chimera_core_eka2l.Prelude.{
  ℕ, ◌*◌, ◌≤◌, ◌<◌, ◌≡◌, refl, sym, ap, Bool, true, false, Option, none, some, [], ◌∷◌, ◌++◌, Bytes,
  codes, is_empty, ltb, ◌==◌, Bool-cases, inl, inr,
}
use mathlib.Core.Option.{some-injective}
use chimera_core_eka2l.Start.{parse_clock_start}
use chimera_core_eka2l.Run.{u32}
use chimera_core_eka2l.Run.Progress.{IsPaced}
use chimera_core_eka2l.Install.{install_ngage}
use chimera_core_eka2l.Install.Card.{install_card}
use chimera_core_eka2l.Install.Blz.{install_blz}
use chimera_core_eka2l.Install.Blz.Ends.{HasRoom, install_blz-Installed}
use chimera_core_eka2l.Phone.{Phone, frame_us}
use chimera_core_eka2l.Session.{Guest, Options}
use chimera_core_eka2l.Session.Init.Settings.{
  Project, set_up, dated, started_at, options_of, ends_with,
}
use chimera_core_eka2l.Session.Init.{
  GameInstall, installed, refused, ngage_installed, blz_unpacked, from_card, install_game,
}

dated_named :
    (o : Options) (value : Bytes) (d : Option ℕ) (text : Bytes)
    → (dated o value d).1 ≡ some text
    → is_empty text ≡ false
dated_named o value none text h =
    ap is_empty (sym (some-injective (codes "error.clock_start" ++ 31 ∷ value) text h))
dated_named o value (some seconds) text h = cc

started_named :
    (p : Project) (o : Options) (value : Option Bytes) (text : Bytes)
    → (started_at p o value).1 ≡ some text
    → is_empty text ≡ false
started_named p o none text h = cc
started_named p o (some value) text h = dated_named o value (parse_clock_start p.scan value) text h

pub options_named :
    (project : Project) (text : Bytes) → (options_of project).1 ≡ some text → is_empty text ≡ false
unfolding options_of
options_named project text h =
    started_named project (set_up project) (project.setting (codes "clockStart")) text h

module _ {ℓ} {S F V : Type ℓ} (g : Guest S F V) where
  -- A refusal has its text.
  abbrev pub IsNamed : GameInstall S → Type 0
  IsNamed (installed p result ngage_app) = Unit
  IsNamed (refused p error) = is_empty error ≡ false

  -- How the installing ends.
  pub record Told (o : Option (GameInstall S)) : Type ℓ where
    pub end : GameInstall S
    pub result : o ≡ some end
    pub named : IsNamed end

  ngage_installed-IsNamed : (p : Phone S) (r' : S × ℕ) → IsNamed (ngage_installed g p r')
  ngage_installed-IsNamed p (w, uid) = elim (Bool-cases (uid == 0)) [
    | inl none' ↦ rw none' refl
    | inr app ↦ rw app tt
  ]

  from_card-IsNamed : (game : Bytes) (p : Phone S) (r' : S × ℕ) → IsNamed (from_card g game p r')
  from_card-IsNamed game p (w, card_files) = elim (Bool-cases (ltb 0 card_files)) [
    | inl card ↦ rw card tt
    | inr package' ↦ rw package' tt
  ]

  blz_unpacked-Told :
      (o : Option (Phone S × Bool)) (p : Phone S) (answer : Bool)
      → o ≡ some (p, answer)
      → Told (blz_unpacked g o)
  blz_unpacked-Told o p true h = record {
    end = installed p 0 0;
    result = ap (blz_unpacked g) h;
    named = tt;
  }
  blz_unpacked-Told o p false h = record {
    end = refused p (codes "error.blz_not_unpacked");
    result = ap (blz_unpacked g) h;
    named = refl;
  }

module _ {ℓ} {S F V : Type ℓ} (g : Guest S F V) (r quota fuel : ℕ)
    (paced : IsPaced quota g.sys.loop) (few : quota < u32) (enough : frame_us * r ≤ fuel) where
  pub install_game-Told :
      (project : Project) (game : Bytes) (p : Phone S)
      → HasRoom g.sys r quota fuel paced few enough p
      → Told g (install_game g fuel project game p)
  unfolding install_game
  install_game-Told project game p room = elim (Bool-cases (ends_with game (codes ".n-gage"))) [
    | inl ngage ↦
        let i = install_ngage g.sys.io project.host game (codes "ngage.sis" ∷ []) p.machine.world in
        rw ngage (record {
          end = ngage_installed g p i;
          result = refl;
          named = ngage_installed-IsNamed g p i;
        })
    | inr other ↦ elim (Bool-cases (ends_with game (codes ".blz"))) [
      | inl blz ↦
          let b =
            install_blz-Installed g.sys r quota fuel paced few enough project.host game
              (codes "blzinstapp.sis") p room in
          rw (other, blz)
            (blz_unpacked-Told g
              (install_blz g.sys fuel project.host game (codes "blzinstapp.sis") p) b.phone b.answer
              b.result)
      | inr card ↦
          let i = install_card g.sys.io (project.archive game) p.machine.world in
          rw (other, card)
            (record {
              end = from_card g game p i;
              result = refl;
              named = from_card-IsNamed g game p i;
            })
    ]
  ]
