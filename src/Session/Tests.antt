-- ===== src/Session/Tests.antt =====
-- The session of waterbox/wbx-entry.cpp, and the installers and devices of waterbox/machine.cpp, at
-- concrete inputs.
use chimera_core_eka2l.Prelude.{◌≡◌, refl, true, false, none, some, [], ◌∷◌, codes, eqb, arith}
use chimera_core_eka2l.Vclock.{virtual_clock}
use chimera_core_eka2l.Audio.{pos}
use chimera_core_eka2l.Screen.{read_screen}
use chimera_core_eka2l.Screen.Fits.{Fits, read_screen-Fits}
use chimera_core_eka2l.Install.{put_file}
use chimera_core_eka2l.Install.Files.{Contents, Put, put_file-Put}
use chimera_core_eka2l.Install.Card.{begins, find_from, find_prefix, install_card}
use chimera_core_eka2l.Install.Card.Drive.{CardEnds, install_card-CardEnds}
use chimera_core_eka2l.Install.Blz.{install_blz}
use chimera_core_eka2l.Install.Blz.Ends.{Installed, before_installer, install_blz-Installed}
use chimera_core_eka2l.Devices.Languages.{
  listed_languages, read_lines, is_last, is_blank, is_marked, Given, listed_languages-Given,
}
use chimera_core_eka2l.Devices.{Manager}
use chimera_core_eka2l.Session.{Session, session}
use chimera_core_eka2l.Session.Frames.{Advanced, advance_all, advance_all-Advanced}
use chimera_core_eka2l.Session.Init.Settings.{options_of}
use chimera_core_eka2l.Session.Init.{init, new_machine, with_machine}
use chimera_core_eka2l.Session.Init.Started.{InitEnds, init-InitEnds}
use chimera_core_eka2l.Session.Concrete.{
  emulator, emulator-IsStore, host, no_files, host_small, archive, system, phone, rate, fuel, text,
  archive_small, manager, display, guest, running, running-IsReadable, project,
}

put_file-Put_example :
    Put emulator eqb
      (λ dir q. false)
      (λ s. s)
      (λ f. f)
      host
      (codes "E:\\a.blz")
      (codes "a.blz")
      no_files
      (put_file emulator host (codes "E:\\a.blz") (codes "a.blz") no_files)
put_file-Put_example =
    put_file-Put emulator eqb (λ dir q. false) (λ s. s) (λ f. f) emulator-IsStore host
      (codes "E:\\a.blz") (codes "a.blz") no_files (host_small (codes "a.blz"))

-- A folder whose name ends in "system" hides the root below it: the first place alone is tested.
hidden_root :
    find_prefix
      (λ b. b)
      (record { path = codes "mysystem/system/a.app"; is_directory = false } ∷ [])
    ≡ none
unfolding find_prefix find_from begins
hidden_root = refl

install_card-CardEnds_example :
    CardEnds emulator eqb
      (λ dir q. false)
      (λ s. s)
      (λ f. f)
      archive
      no_files
      (install_card emulator archive no_files)
install_card-CardEnds_example =
    install_card-CardEnds emulator eqb (λ dir q. false) (λ s. s) (λ f. f) emulator-IsStore archive
      no_files archive_small

install_blz-Installed_example :
    Installed system rate 0 fuel
      (λ w c. omega arith)
      (omega arith)
      (omega arith)
      (before_installer system rate 0 fuel
        (λ w c. omega arith)
        (omega arith)
        (omega arith)
        host
        (codes "a.blz")
        phone).apps_before_install
      phone
      (install_blz system fuel host (codes "a.blz") (codes "blzinstapp.sis") phone)
unfolding virtual_clock
install_blz-Installed_example =
    install_blz-Installed system rate 0 fuel (λ w c. omega arith) (omega arith) (omega arith) host
      (codes "a.blz") (codes "blzinstapp.sis") phone
      (record { rate = refl; small = omega arith }, omega arith)

listed_languages-Given_example : Given text (text.lines []) (pos 1 ∷ pos 2 ∷ []) (pos 2)
unfolding listed_languages read_lines is_last is_blank is_marked eqb
listed_languages-Given_example = listed_languages-Given text [] (pos 1 ∷ pos 2 ∷ []) (pos 2) refl

-- Any 'd' marks a language, and so does any comma.
marked_anywhere : is_marked (codes "12 Thai, old") ≡ true
unfolding is_marked
marked_anywhere = refl

-- A manager whose ROMs need an RPKG, which is there but no package.
abbrev rpkg_manager : Manager Contents
rpkg_manager = record manager {
  should_install_requires_additional_rpkg = λ path. true;
  rpkg_image = λ path. some (some (1 ∷ 2 ∷ []));
}

read_screen-Fits_example :
    Fits display (read_screen display record { out = []; width = 0; height = 0 })
read_screen-Fits_example = read_screen-Fits display record { out = []; width = 0; height = 0 }

advance_all-Advanced_example : Advanced 3 running (advance_all guest fuel 3 running)
unfolding virtual_clock session
advance_all-Advanced_example =
    advance_all-Advanced guest rate 0 fuel (λ w c. omega arith) (omega arith) (omega arith) 3
      running refl running-IsReadable record { rate = refl; small = omega arith } (omega arith)

abbrev fresh : Session Contents
fresh = record (session phone) { load_error = [] }

init-InitEnds_example :
    InitEnds guest rate 0 fuel
      (λ w c. omega arith)
      (omega arith)
      (omega arith)
      project
      (with_machine guest fresh (new_machine guest (options_of project).0))
      fresh
      (init guest fuel project (session phone))
unfolding virtual_clock new_machine options_of
init-InitEnds_example =
    init-InitEnds guest rate 0 fuel (λ w c. omega arith) (omega arith) (omega arith) project
      (session phone) (record { rate = refl; small = omega arith }, omega arith)
