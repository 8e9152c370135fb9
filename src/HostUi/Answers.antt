-- ===== src/HostUi/Answers.antt =====
-- Every dialog is answered once, in its turn (waterbox/host-ui.cpp).
use chimera_core_eka2l.Prelude.{
  ℕ, ◌≡◌, refl, sym, ap, ◌∙◌, Option, none, some, List, [], ◌∷◌, ◌++◌, map,
}
use chimera_core_eka2l.HostUi.{
  Callbacks, HostUi, declined, show_yes_no_dialog, show_all, answer_all, answered, pump_host_ui,
}

append_assoc {ℓ} : {A : Type ℓ} (xs ys zs : List A) → (xs ++ ys) ++ zs ≡ xs ++ (ys ++ zs)
append_assoc [] ys zs = refl
append_assoc (x ∷ xs) ys zs = ap (λ t. x ∷ t) (append_assoc xs ys zs)

append_nil {ℓ} : {A : Type ℓ} (xs : List A) → xs ++ [] ≡ xs
append_nil [] = refl
append_nil (x ∷ xs) = ap (λ t. x ∷ t) (append_nil xs)

-- The dialogs that have a callback.
abbrev pub asked : List (Option ℕ) → List ℕ
asked [] = []
asked (none ∷ dialogs) = asked dialogs
asked (some callback ∷ dialogs) = callback ∷ asked dialogs

asked-append : (xs ys : List (Option ℕ)) → asked (xs ++ ys) ≡ asked xs ++ asked ys
asked-append [] ys = refl
asked-append (none ∷ xs) ys = asked-append xs ys
asked-append (some x ∷ xs) ys = ap (λ t. x ∷ t) (asked-append xs ys)

-- What the emulator does: it raises a dialog, or the loop pumps.
pub data Turn : Type 0 where
  asks : Option ℕ → Turn
  pumps : Turn

module _ {ℓ} {W : Type ℓ} (c : Callbacks W) where
  show_all-pending :
      (dialogs : List (Option ℕ)) (u : HostUi W)
      → (show_all dialogs u).pending ≡ u.pending ++ asked dialogs
  unfolding show_yes_no_dialog
  show_all-pending [] u = sym (append_nil u.pending)
  show_all-pending (none ∷ dialogs) u = show_all-pending dialogs u
  show_all-pending (some x ∷ dialogs) u =
      show_all-pending dialogs (record u { pending = u.pending ++ x ∷ [] })
      ∙ append_assoc u.pending (x ∷ []) (asked dialogs)

  -- The calls of one after another, from a state of the emulator: what they raise.
  abbrev pub raised : List ℕ → W → List ℕ
  raised [] w = []
  raised (callback ∷ answering) w =
      asked (c.call callback declined w).1 ++ raised answering (c.call callback declined w).0

  show_all-world : (dialogs : List (Option ℕ)) (u : HostUi W) → (show_all dialogs u).world ≡ u.world
  unfolding show_yes_no_dialog
  show_all-world [] u = refl
  show_all-world (none ∷ dialogs) u = show_all-world dialogs u
  show_all-world (some x ∷ dialogs) u =
      show_all-world dialogs (record u { pending = u.pending ++ x ∷ [] })

  -- The dialogs answered, each with its button.
  abbrev pub declined_all : List ℕ → List (ℕ × ℕ)
  declined_all = map (λ callback. (callback, declined))

  answer_all-calls :
      (answering : List ℕ) (u : HostUi W) → (answer_all c answering u).1 ≡ declined_all answering
  unfolding answer_all
  answer_all-calls [] u = refl
  answer_all-calls (x ∷ answering) u = ap (λ t. (x, declined) ∷ t) (answer_all-calls answering _)

  answer_all-pending :
      (answering : List ℕ) (u : HostUi W)
      → (answer_all c answering u).0.pending ≡ u.pending ++ raised answering u.world
  unfolding answer_all
  answer_all-pending [] u = sym (append_nil u.pending)
  answer_all-pending (x ∷ answering) u =
      let r = c.call x declined u.world in
      let next = show_all r.1 (record u { world = r.0 }) in
      answer_all-pending answering next
      ∙ ap (λ p. p ++ raised answering next.world) (show_all-pending r.1 (record u { world = r.0 }))
      ∙ append_assoc u.pending (asked r.1) (raised answering next.world)
      ∙ ap (λ w. u.pending ++ (asked r.1 ++ raised answering w))
          (show_all-world r.1 (record u { world = r.0 }))

  -- One turn: the state, the calls, and the dialogs raised.
  unfoldable pub turn : Turn → HostUi W → HostUi W × (List (ℕ × ℕ) × List ℕ)
  turn (asks dialog) u = (show_yes_no_dialog dialog u, ([], asked (dialog ∷ [])))
  turn pumps u = let r = pump_host_ui c u in (r.0, (r.1, raised u.pending u.world))

  unfoldable pub turns : List Turn → HostUi W → HostUi W × (List (ℕ × ℕ) × List ℕ)
  unfolding turn
  turns [] u = (u, ([], []))
  turns (t ∷ ts) u =
      let r = turn t u in
      let rest = turns ts r.0 in (rest.0, (r.1.0 ++ rest.1.0, r.1.1 ++ rest.1.1))

  answered-calls : (ps : List ℕ) (u : HostUi W) → (answered c ps u).1 ≡ declined_all ps
  answered-calls [] u = refl
  answered-calls (x ∷ ps) u = answer_all-calls (x ∷ ps) (record u { pending = [] })

  answered-pending :
      (ps : List ℕ) (u : HostUi W)
      → u.pending ≡ ps
      → (answered c ps u).0.pending ≡ raised ps u.world
  answered-pending [] u h = h
  answered-pending (x ∷ ps) u h = answer_all-pending (x ∷ ps) (record u { pending = [] })

  -- What turns do: each dialog served is declined, and those served with those that are left are those
  -- that were pending with those raised, in order.
  pub record Served (u : HostUi W) (r : HostUi W × (List (ℕ × ℕ) × List ℕ)) : Type 0 where
    pub served : List ℕ
    pub calls : r.1.0 ≡ declined_all served
    pub order : served ++ r.0.pending ≡ u.pending ++ r.1.1

  turn-Served : (t : Turn) (u : HostUi W) → Served u (turn t u)
  unfolding turn show_yes_no_dialog pump_host_ui
  turn-Served (asks none) u = record {
    served = [];
    calls = refl;
    order = sym (append_nil u.pending);
  }
  turn-Served (asks (some x)) u = record { served = []; calls = refl; order = refl }
  turn-Served pumps u = record {
    served = u.pending;
    calls = answered-calls u.pending u;
    order = ap (λ p. u.pending ++ p) (answered-pending u.pending u refl);
  }

  map-append : (xs ys : List ℕ) → declined_all xs ++ declined_all ys ≡ declined_all (xs ++ ys)
  map-append [] ys = refl
  map-append (x ∷ xs) ys = ap (λ t. (x, declined) ∷ t) (map-append xs ys)

  -- Whatever dialogs are raised, by the emulator or by the callbacks themselves, and whenever the loop
  -- pumps: every dialog that is served is declined, and the dialogs served, followed by those that still
  -- wait, are those that waited, followed by those raised, each once and in order.
  pub turns-Served : (ts : List Turn) (u : HostUi W) → Served u (turns ts u)
  unfolding turns
  turns-Served [] u = record { served = []; calls = refl; order = sym (append_nil u.pending) }
  turns-Served (t ∷ ts) u =
      let a = turn-Served t u in
      let b = turns-Served ts (turn t u).0 in
      record {
        served = a.served ++ b.served;
        calls =
            ap (λ x. x ++ (turns ts (turn t u).0).1.0) a.calls
            ∙ ap (λ y. declined_all a.served ++ y) b.calls
            ∙ map-append a.served b.served;
        order =
            append_assoc a.served b.served (turns ts (turn t u).0).0.pending
            ∙ ap (λ x. a.served ++ x) b.order
            ∙ sym (append_assoc a.served (turn t u).0.pending (turns ts (turn t u).0).1.1)
            ∙ ap (λ x. x ++ (turns ts (turn t u).0).1.1) a.order
            ∙ append_assoc u.pending (turn t u).1.1 (turns ts (turn t u).0).1.1;
      }
