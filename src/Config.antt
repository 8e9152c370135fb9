-- ===== src/Config.antt =====
-- The configuration that the constructor of `machine` (waterbox/machine.cpp) gives the emulator, and
-- its key table. EKA2L1's scan codes and its reading of the buffer option are parameters.
pub mod Keys
mod Tests
use chimera_core_eka2l.Prelude.{ℕ, suc, Bool, true, false, List, [], ◌∷◌, Bytes}
use chimera_core_eka2l.Session.{Options}

-- The emulator's names of the keys that are no characters, and its buffer options.
pub record Upstream : Type 0 where
  pub std_key_up_arrow : ℕ
  pub std_key_down_arrow : ℕ
  pub std_key_left_arrow : ℕ
  pub std_key_right_arrow : ℕ
  pub std_key_device_0 : ℕ
  pub std_key_device_1 : ℕ
  pub std_key_device_3 : ℕ
  pub std_key_application_0 : ℕ
  pub std_key_application_1 : ℕ
  pub screen_buffer_sync_option : Bytes → ℕ

-- `config::keybind` of the type for keys.
pub record Keybind : Type 0 where
  pub keycode : ℕ
  pub target : ℕ

-- What the constructor sets of `config::state`.
pub record State : Type 0 where
  pub storage : Bytes
  pub cpu_backend : Bytes
  pub screen_buffer_sync_string : Bytes
  pub screen_buffer_sync : ℕ
  pub enable_hw_gles1 : Bool
  pub cpu_load_save : Bool
  pub fbs_enable_compression_queue : Bool
  pub single_thread_app_scan : Bool
  pub log_svc : Bool
  pub enable_networking : Bool
  pub keybinds : List Keybind

-- `TARGETS`
abbrev pub targets : Upstream → List ℕ
targets u =
    u.std_key_up_arrow ∷ u.std_key_down_arrow ∷ u.std_key_left_arrow ∷ u.std_key_right_arrow
    ∷ u.std_key_device_3 ∷ u.std_key_device_0 ∷ u.std_key_device_1 ∷ u.std_key_application_0
    ∷ u.std_key_application_1 ∷ b'0' ∷ b'1' ∷ b'2' ∷ b'3' ∷ b'4' ∷ b'5' ∷ b'6' ∷ b'7' ∷ b'8' ∷ b'9'
    ∷ b'*' ∷ b'#' ∷ []

-- The loop that pushes the keybinds: the button, and the targets from it on.
unfoldable pub bind_from : ℕ → List ℕ → List Keybind
bind_from i [] = []
bind_from i (target ∷ more) = record { keycode = i; target = target } ∷ bind_from (suc i) more

unfoldable pub configure : Upstream → Options → State
unfolding bind_from
configure u o = record {
  storage = o.storage;
  cpu_backend = o.cpu_backend;
  screen_buffer_sync_string = o.screen_buffer_sync;
  screen_buffer_sync = u.screen_buffer_sync_option o.screen_buffer_sync;
  enable_hw_gles1 = o.hw_gles1;
  cpu_load_save = false;
  fbs_enable_compression_queue = false;
  single_thread_app_scan = true;
  log_svc = o.log_syscalls;
  enable_networking = false;
  keybinds = bind_from 0 (targets u);
}
