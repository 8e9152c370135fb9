-- ===== src/Harness/Native/Prepare/CommandLine.antt =====
-- The command line of waterbox/run-native.cpp for a project of the sandbox, from its arguments to the
-- machine.
use chimera_core_eka2l.Prelude.{Bool, true, false, List, [], ◌∷◌, Bytes, codes}
use chimera_core_eka2l.Session.{Session}
use chimera_core_eka2l.Session.Init
use chimera_core_eka2l.Session.Init.Settings.{Project, ends_with, set_up}
use chimera_core_eka2l.Harness.Native.Args.{Arguments, no_arguments}
use chimera_core_eka2l.Harness.Native.Prepare
use chimera_core_eka2l.Harness.Native.Prepare.{Prepared, prepare}
use chimera_core_eka2l.Harness.Native.Prepare.Game.{for_ngage, for_blz, for_card}

-- The options for the game, by its name, as `Init` takes it.
abbrev by_name : Bool → Bool → Bytes → List Bytes
by_name true blz game = codes "--ngage" ∷ game ∷ codes "--ngage-launcher" ∷ codes "ngage.sis" ∷ []
by_name false true game =
    codes "--blz" ∷ game ∷ codes "--blz-installer" ∷ codes "blzinstapp.sis" ∷ []
by_name false false game = codes "--card" ∷ game ∷ []

abbrev gles_name : Bool → Bytes
gles_name true = codes "hardware"
gles_name false = codes "software"

abbrev with_settings : Bytes → Bytes → Bool → List Bytes → List Bytes
with_settings rpkg sync hardware game_options =
    codes "--rom-only"
    ∷ codes "sym.rom"
    ∷ codes "--rpkg"
    ∷ rpkg
    ∷ codes "--screen-buffer-sync"
    ∷ sync
    ∷ codes "--opengl-es"
    ∷ gles_name hardware
    ∷ game_options

-- The command line for a project and its game.
abbrev pub command_line : Project → Bytes → Bytes → List Bytes
command_line project rpkg game =
    with_settings rpkg (set_up project).screen_buffer_sync (set_up project).hw_gles1
      (by_name (ends_with game (codes ".n-gage")) (ends_with game (codes ".blz")) game)

abbrev settled : Bytes → Bytes → Bool → Arguments
settled rpkg sync hardware = record no_arguments {
  rom_only_path = codes "sym.rom";
  rpkg_path = rpkg;
  screen_buffer_sync = sync;
  hw_gles1 = hardware;
}

abbrev asked : Bool → Bool → Arguments → Bytes → Arguments
asked true blz a game = for_ngage a game
asked false true a game = for_blz a game
asked false false a game = for_card a game
