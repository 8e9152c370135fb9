-- ===== src/Config/Keys.antt =====
-- The keys that the window server is sent, against the key table of waterbox/machine.cpp.
use chimera_core_eka2l.Prelude.{
  ℕ, suc, ◌+◌, ◌≤◌, ◌<◌, ◌≡◌, refl, subst, length, Bool, true, false, ◌||◌, ◌&&◌, List, [], ◌∷◌,
  ◌++◌, All, leb, ◌==◌, if◌then◌else◌, get_or, Bool-cases, inl, inr, arith,
}
use chimera_core_eka2l.Session.{Options}
use chimera_core_eka2l.Keypad.{
  Button, button_index, button_count, Event, Keypad, keypad, set_button, same, button_up,
  button_down, button_left, button_right, button_select, button_soft_left, button_soft_right,
  button_call, button_end_call, button_0, button_1, button_2, button_3, button_4, button_5,
  button_6, button_7, button_8, button_9, button_star, button_hash,
}
use chimera_core_eka2l.Keypad.Held.{Press, press_all}
use chimera_core_eka2l.Config.{Upstream, Keybind, bind_from, configure}

-- What is bound to a key code, by all keybinds.
unfoldable pub bound : ℕ → List Keybind → List ℕ
bound code [] = []
bound code (k ∷ ks) = if k.keycode == code then k.target ∷ bound code ks else bound code ks

-- The scan code that each button of a phone has.
unfoldable pub scan_code : Upstream → Button → ℕ
scan_code u button_up = u.std_key_up_arrow
scan_code u button_down = u.std_key_down_arrow
scan_code u button_left = u.std_key_left_arrow
scan_code u button_right = u.std_key_right_arrow
scan_code u button_select = u.std_key_device_3
scan_code u button_soft_left = u.std_key_device_0
scan_code u button_soft_right = u.std_key_device_1
scan_code u button_call = u.std_key_application_0
scan_code u button_end_call = u.std_key_application_1
scan_code u button_0 = b'0'
scan_code u button_1 = b'1'
scan_code u button_2 = b'2'
scan_code u button_3 = b'3'
scan_code u button_4 = b'4'
scan_code u button_5 = b'5'
scan_code u button_6 = b'6'
scan_code u button_7 = b'7'
scan_code u button_8 = b'8'
scan_code u button_9 = b'9'
scan_code u button_star = b'*'
scan_code u button_hash = b'#'

configure-bound :
    (u : Upstream) (o : Options) (b : Button)
    → bound (button_index b) (configure u o).keybinds ≡ scan_code u b ∷ []
unfolding bound button_index configure scan_code bind_from
configure-bound u o button_up = refl
configure-bound u o button_down = refl
configure-bound u o button_left = refl
configure-bound u o button_right = refl
configure-bound u o button_select = refl
configure-bound u o button_soft_left = refl
configure-bound u o button_soft_right = refl
configure-bound u o button_call = refl
configure-bound u o button_end_call = refl
configure-bound u o button_0 = refl
configure-bound u o button_1 = refl
configure-bound u o button_2 = refl
configure-bound u o button_3 = refl
configure-bound u o button_4 = refl
configure-bound u o button_5 = refl
configure-bound u o button_6 = refl
configure-bound u o button_7 = refl
configure-bound u o button_8 = refl
configure-bound u o button_9 = refl
configure-bound u o button_star = refl
configure-bound u o button_hash = refl

abbrev buttons : List Button
buttons =
    button_up ∷ button_down ∷ button_left ∷ button_right ∷ button_select ∷ button_soft_left
    ∷ button_soft_right ∷ button_call ∷ button_end_call ∷ button_0 ∷ button_1 ∷ button_2 ∷ button_3
    ∷ button_4 ∷ button_5 ∷ button_6 ∷ button_7 ∷ button_8 ∷ button_9 ∷ button_star ∷ button_hash
    ∷ []

-- Whether the buttons of a list have the numbers from `k` on.
numbered : ℕ → List Button → Bool
numbered k [] = true
numbered k (b ∷ bs) = button_index b == k && numbered (suc k) bs

buttons-numbered : numbered 0 buttons ≡ true
unfolding numbered button_index
buttons-numbered = refl

numbered-found :
    (k : ℕ) (bs : List Button) (i : ℕ)
    → numbered k bs ≡ true
    → k ≤ i
    → i < k + length bs
    → (b : Button) × (button_index b ≡ i)
unfolding numbered
numbered-found k [] i n p q = absurd (omega arith)
numbered-found k (b ∷ bs) i n p q = elim (Bool-cases (i == k)) [
  | inl here ↦ (b, ground (arith, n, here))
  | inr later ↦
      numbered-found (suc k) bs i (ground (arith, n)) (ground (arith, later)) (omega arith)
]

-- The emulator binds the event's code to one scan code, the one of the button with that index.
abbrev pub IsBound : Upstream → Options → Event → Type 0
IsBound u o e =
    (b : Button) × (button_index b ≡ e.code)
    × (bound e.code (configure u o).keybinds ≡ scan_code u b ∷ [])

event-IsBound :
    (u : Upstream) (o : Options) (held : Bool) (i : ℕ)
    → i < button_count
    → IsBound u o record { pressed = held; code = i }
event-IsBound u o held i h =
    let (b, e) = numbered-found 0 buttons i buttons-numbered (omega arith) (omega arith) in
    (
      b,
      e,
      subst (λ j. bound j (configure u o).keybinds ≡ scan_code u b ∷ []) e (configure-bound u o b),
    )

All-append : (P : Event → Type 0) (es fs : List Event) → All P es → All P fs → All P (es ++ fs)
All-append P [] fs p q = q
All-append P (e ∷ es) fs p q = (p.0, All-append P es fs p.1 q)

set_button-IsBound :
    (u : Upstream) (o : Options) (x : Press) (k : Keypad)
    → All (IsBound u o) k.queued
    → All (IsBound u o) (set_button x.sign x.index x.held k).queued
unfolding set_button
set_button-IsBound u o x k t =
    elim (Bool-cases
      (x.sign || leb button_count x.index || same (get_or k.buttons x.index false) x.held)) [
        | inl nothing ↦ rw nothing t
        | inr change ↦ elim (Bool-cases k.winserv) [
          | inl there ↦
              rw (change, there)
                (All-append (IsBound u o) k.queued
                  (record { pressed = x.held; code = x.index } ∷ []) t
                  (event-IsBound u o x.held x.index (ground (arith, change)), tt))
          | inr gone ↦ rw (change, gone) t
        ]
      ]

presses-IsBound :
    (u : Upstream) (o : Options) (xs : List Press) (k : Keypad)
    → All (IsBound u o) k.queued
    → All (IsBound u o) (press_all xs k).queued
unfolding press_all
presses-IsBound u o [] k t = t
presses-IsBound u o (x ∷ xs) k t =
    presses-IsBound u o xs (set_button x.sign x.index x.held k) (set_button-IsBound u o x k t)

-- Whatever calls of `set_button` are made on a new machine, with any index and any state, and whatever
-- its options are: each event that the window server is sent has the index of a button, and the
-- configuration binds that code once, to the scan code that this button has.
pub press_all-IsBound :
    (u : Upstream) (o : Options) (winserv : Bool) (xs : List Press)
    → All (IsBound u o) (press_all xs (keypad winserv)).queued
unfolding keypad
press_all-IsBound u o winserv xs = presses-IsBound u o xs (keypad winserv) tt
