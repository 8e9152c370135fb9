-- ===== src/Keypad.antt =====
-- The keypad: waterbox/input.h, `button_name` of waterbox/input.cpp, and `set_button` of
-- waterbox/machine.cpp. The window server is the emulator's: what it is sent is kept in order.
pub mod Held
use chimera_core_eka2l.Prelude.{
  ℕ, zero, suc, Bool, true, false, not, ◌&&◌, ◌||◌, List, [], ◌∷◌, ◌++◌, Bytes, codes, ltb, leb,
  if◌then◌else◌, get_or, set, replicate,
}

-- `enum button` without `BUTTON_COUNT`, and a button's value.
pub data Button : Type 0 where
  button_up button_down button_left button_right button_select : Button
  button_soft_left button_soft_right button_call button_end_call button_0 : Button
  button_1 button_2 button_3 button_4 button_5 : Button
  button_6 button_7 button_8 button_9 button_star : Button
  button_hash : Button

unfoldable pub button_index : Button → ℕ
button_index button_up = 0
button_index button_down = 1
button_index button_left = 2
button_index button_right = 3
button_index button_select = 4
button_index button_soft_left = 5
button_index button_soft_right = 6
button_index button_call = 7
button_index button_end_call = 8
button_index button_0 = 9
button_index button_1 = 10
button_index button_2 = 11
button_index button_3 = 12
button_index button_4 = 13
button_index button_5 = 14
button_index button_6 = 15
button_index button_7 = 16
button_index button_8 = 17
button_index button_9 = 18
button_index button_star = 19
button_index button_hash = 20

abbrev pub button_count : ℕ
button_count = 21

abbrev pub button_names : List Bytes
button_names =
    codes "Up"
    ∷ codes "Down"
    ∷ codes "Left"
    ∷ codes "Right"
    ∷ codes "Select"
    ∷ codes "Left Soft"
    ∷ codes "Right Soft"
    ∷ codes "Call"
    ∷ codes "End Call"
    ∷ codes "0"
    ∷ codes "1"
    ∷ codes "2"
    ∷ codes "3"
    ∷ codes "4"
    ∷ codes "5"
    ∷ codes "6"
    ∷ codes "7"
    ∷ codes "8"
    ∷ codes "9"
    ∷ codes "Star"
    ∷ codes "Hash"
    ∷ []

-- `sign` says that the index is negative.
unfoldable pub button_name : Bool → ℕ → Bytes
button_name sign index =
    if not sign && ltb index button_count then get_or button_names index [] else []

-- `drivers::input_event` of a key: whether it is pressed, and its code.
pub record Event : Type 0 where
  pub pressed : Bool
  pub code : ℕ

-- `winserv` says that the kernel and its window server are there.
pub record Keypad : Type 0 where
  pub buttons : List Bool
  pub winserv : Bool
  pub queued : List Event

abbrev pub same : Bool → Bool → Bool
same true b = b
same false b = not b

-- The buttons as the constructor of `machine` leaves them.
unfoldable pub keypad : Bool → Keypad
keypad winserv = record { buttons = replicate button_count false; winserv = winserv; queued = [] }

unfoldable pub set_button : Bool → ℕ → Bool → Keypad → Keypad
set_button sign index held k =
    if sign || leb button_count index || same (get_or k.buttons index false) held
    then k
    else let pressed = record k { buttons = set k.buttons index held } in
      if not k.winserv
      then pressed
      else record pressed { queued = k.queued ++ record { pressed = held; code = index } ∷ [] }
