-- ===== src/HostUi.antt =====
-- waterbox/host-ui.cpp: the questions that the emulator would ask its user, and the answers of a
-- machine with nobody at the keyboard. What a dialog's callback does is the emulator's, a parameter.
pub mod Answers
use chimera_core_eka2l.Prelude.{
  ℕ, Bool, true, false, Option, none, some, List, [], ◌∷◌, ◌++◌, Bytes,
}

-- A callback, by what it does to the emulator's state when it is called with a button's index: the
-- state after it, and the dialogs that it raised in order, by their callbacks' names.
pub record Callbacks {ℓ} (W : Type ℓ) : Type ℓ where
  pub call : ℕ → ℕ → W → W × List (Option ℕ)

-- `g_pending_dialogs`, beside the emulator's state.
pub record HostUi {ℓ} (W : Type ℓ) : Type ℓ where
  pub world : W
  pub pending : List ℕ

-- The second button of two.
abbrev pub declined : ℕ
declined = 1

module _ {ℓ} {W : Type ℓ} where
  -- `show_yes_no_dialog`, an empty callback being none.
  unfoldable pub show_yes_no_dialog : Option ℕ → HostUi W → HostUi W
  show_yes_no_dialog none u = u
  show_yes_no_dialog (some callback) u = record u { pending = u.pending ++ callback ∷ [] }

  abbrev pub show_all : List (Option ℕ) → HostUi W → HostUi W
  show_all [] u = u
  show_all (dialog ∷ dialogs) u = show_all dialogs (show_yes_no_dialog dialog u)

  unfoldable pub open_input_view : Bytes → ℕ → HostUi W → HostUi W × Bool
  open_input_view initial_text max_len u = (u, false)

  unfoldable pub close_input_view : HostUi W → HostUi W
  close_input_view u = u

  unfoldable pub launch_browser : Bytes → HostUi W → HostUi W × Bool
  launch_browser url u = (u, false)

module _ {ℓ} {W : Type ℓ} (c : Callbacks W) where
  -- The loop over the dialogs that were taken away, with the calls that it made: each callback and
  -- the button.
  unfoldable pub answer_all : List ℕ → HostUi W → HostUi W × List (ℕ × ℕ)
  unfolding show_yes_no_dialog
  answer_all [] u = (u, [])
  answer_all (callback ∷ answering) u =
      let r = c.call callback declined u.world in
      let rest = answer_all answering (show_all r.1 (record u { world = r.0 })) in
      (rest.0, (callback, declined) ∷ rest.1)

  -- Nothing is done where no dialog is pending; the queue is taken away before any callback runs.
  abbrev pub answered : List ℕ → HostUi W → HostUi W × List (ℕ × ℕ)
  answered [] u = (u, [])
  answered (callback ∷ more) u = answer_all (callback ∷ more) (record u { pending = [] })

  unfoldable pub pump_host_ui : HostUi W → HostUi W × List (ℕ × ℕ)
  pump_host_ui u = answered u.pending u
