-- ===== src/Config/Tests.antt =====
-- The key table of waterbox/machine.cpp at concrete inputs.
use chimera_core_eka2l.Prelude.{true, false, List, [], ◌∷◌, All}
use chimera_core_eka2l.Keypad.{keypad}
use chimera_core_eka2l.Keypad.Held.{Press, press_all}
use chimera_core_eka2l.Session.Init.Settings.{default_options}
use chimera_core_eka2l.Config.{Upstream}
use chimera_core_eka2l.Config.Keys.{IsBound, press_all-IsBound}

abbrev upstream : Upstream
upstream = record {
  std_key_up_arrow = 16;
  std_key_down_arrow = 17;
  std_key_left_arrow = 14;
  std_key_right_arrow = 15;
  std_key_device_0 = 164;
  std_key_device_1 = 165;
  std_key_device_3 = 167;
  std_key_application_0 = 180;
  std_key_application_1 = 181;
  screen_buffer_sync_option = λ text. 0;
}

-- A key pressed twice, one beyond the keypad, and one let go.
abbrev presses : List Press
presses =
    record { sign = false; index = 4; held = true }
    ∷ record { sign = false; index = 4; held = true }
    ∷ record { sign = false; index = 21; held = true }
    ∷ record { sign = false; index = 20; held = true }
    ∷ record { sign = false; index = 4; held = false }
    ∷ []

press_all-IsBound_example :
    All (IsBound upstream default_options) (press_all presses (keypad true)).queued
press_all-IsBound_example = press_all-IsBound upstream default_options true presses
