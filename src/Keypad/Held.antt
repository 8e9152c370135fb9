-- ===== src/Keypad/Held.antt =====
-- What the window server is told of the keys (waterbox/machine.cpp).
use chimera_core_eka2l.Prelude.{
  ℕ, ◌≡◌, refl, ap, ◌∙◌, Bool, true, false, ◌||◌, List, [], ◌∷◌, ◌++◌, leb, get_or, set, replicate,
  Bool-cases, inl, inr,
}
use chimera_core_eka2l.Keypad.{Event, Keypad, keypad, set_button, button_count, same}

-- One call of `SetButton`.
pub record Press : Type 0 where
  pub sign : Bool
  pub index : ℕ
  pub held : Bool

unfoldable pub press_all : List Press → Keypad → Keypad
press_all [] k = k
press_all (x ∷ xs) k = press_all xs (set_button x.sign x.index x.held k)

-- The keys as who reads the events sees them.
abbrev pub replay : List Event → List Bool → List Bool
replay [] buttons = buttons
replay (e ∷ es) buttons = replay es (set buttons e.code e.pressed)

replay-append :
    (es fs : List Event) (buttons : List Bool)
    → replay (es ++ fs) buttons ≡ replay fs (replay es buttons)
replay-append [] fs buttons = refl
replay-append (e ∷ es) fs buttons = replay-append es fs (set buttons e.code e.pressed)

abbrev nothing_held : List Bool
nothing_held = replicate button_count false

-- The events tell the buttons, as long as the window server is there.
record IsTold (k : Keypad) : Type 0 where
  there : k.winserv ≡ true
  told : replay k.queued nothing_held ≡ k.buttons

set_button-IsTold :
    (x : Press) (k : Keypad) → IsTold k → IsTold (set_button x.sign x.index x.held k)
unfolding set_button
set_button-IsTold x k t =
    elim (Bool-cases
      (x.sign || leb button_count x.index || same (get_or k.buttons x.index false) x.held)) [
        | inl nothing ↦ rw nothing t
        | inr change ↦
            rw (change, t.there)
              record {
                there = refl;
                told =
                    replay-append k.queued (record { pressed = x.held; code = x.index } ∷ [])
                      nothing_held
                    ∙ ap (λ b. set b x.index x.held) t.told;
              }
      ]

press_all-IsTold : (xs : List Press) (k : Keypad) → IsTold k → IsTold (press_all xs k)
unfolding press_all
press_all-IsTold [] k t = t
press_all-IsTold (x ∷ xs) k t =
    press_all-IsTold xs (set_button x.sign x.index x.held k) (set_button-IsTold x k t)

-- Whatever calls of `set_button` are made on a new machine with a window server, with any index and
-- any state: the events that the server is sent, taken in order from no key held, leave each key as
-- the machine has it.
pub press_all-replay :
    (xs : List Press)
    → replay (press_all xs (keypad true)).queued (replicate button_count false)
      ≡ (press_all xs (keypad true)).buttons
unfolding keypad
press_all-replay xs = (press_all-IsTold xs (keypad true) record { there = refl; told = refl }).told
