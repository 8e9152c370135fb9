-- ===== src/Graphics/Handles.antt =====
-- The handles of the driver that draws nowhere (waterbox/null-graphics.cpp).
use chimera_core_eka2l.Prelude.{
  ℕ, zero, suc, ◌+◌, ◌^◌, ◌≤◌, ◌<◌, ◌≡◌, refl, ap, ◌∙◌, Option, none, some, List, [], ◌∷◌, ◌++◌,
  length, arith, inl, inr, ◌⊎◌,
}
use chimera_core_eka2l.Graphics.{
  Command, Effect, wrote, freed, finished, answer, release, answer_slot, owned_slot, dispatch,
  dispatch_all, submit_command_list,
}

-- The handles that a sequence of effects hands out, and the commands that it finishes.
abbrev pub handles : List Effect → List ℕ
handles [] = []
handles (wrote at h ∷ es) = h ∷ handles es
handles (freed at ∷ es) = handles es
handles (finished status ∷ es) = handles es

abbrev pub completed : List Effect → List ℕ
completed [] = []
completed (wrote at h ∷ es) = completed es
completed (freed at ∷ es) = completed es
completed (finished status ∷ es) = status ∷ completed es

-- `k` numbers from `n` on.
abbrev pub up_from : ℕ → ℕ → List ℕ
up_from n zero = []
up_from n (suc k) = n ∷ up_from (suc n) k

abbrev pub statuses : List Command → List ℕ
statuses [] = []
statuses (cmd ∷ cmds) = cmd.status ∷ statuses cmds

handles-append : (es fs : List Effect) → handles (es ++ fs) ≡ handles es ++ handles fs
handles-append [] fs = refl
handles-append (wrote at h ∷ es) fs = ap (λ t. h ∷ t) (handles-append es fs)
handles-append (freed at ∷ es) fs = handles-append es fs
handles-append (finished status ∷ es) fs = handles-append es fs

completed-append : (es fs : List Effect) → completed (es ++ fs) ≡ completed es ++ completed fs
completed-append [] fs = refl
completed-append (wrote at h ∷ es) fs = completed-append es fs
completed-append (freed at ∷ es) fs = completed-append es fs
completed-append (finished status ∷ es) fs = ap (λ t. status ∷ t) (completed-append es fs)

-- A command hands out one handle or none, and finishes once.
record Dispatched (next : ℕ) (cmd : Command) (r : ℕ × List Effect) : Type 0 where
  given : ((r.0 ≡ next) × (handles r.1 ≡ [])) ⊎ ((r.0 ≡ suc next) × (handles r.1 ≡ next ∷ []))
  done : completed r.1 ≡ cmd.status ∷ []

dispatch-Dispatched :
    (next : ℕ) (cmd : Command) → next + 1 < 2 ^ 64 → Dispatched next cmd (dispatch next cmd)
unfolding dispatch
dispatch-Dispatched next cmd room = record {
  given = given (answer_slot cmd.opcode) (owned_slot cmd.opcode);
  done = done (answer_slot cmd.opcode) (owned_slot cmd.opcode);
}
  where
    given :
        (a o : Option ℕ)
        → let r = (answer next cmd a).1 ++ release cmd o ++ finished cmd.status ∷ [] in
          (((answer next cmd a).0 ≡ next) × (handles r ≡ []))
          ⊎ (((answer next cmd a).0 ≡ suc next) × (handles r ≡ next ∷ []))
    given none none = inl (refl, refl)
    given none (some o) = ground arith
    given (some a) none = ground arith
    given (some a) (some o) = ground arith

    done :
        (a o : Option ℕ)
        → completed ((answer next cmd a).1 ++ release cmd o ++ finished cmd.status ∷ [])
          ≡ cmd.status ∷ []
    done none none = refl
    done none (some o) = ground arith
    done (some a) none = ground arith
    done (some a) (some o) = ground arith

append_empty : (xs : List ℕ) → xs ++ [] ≡ xs
append_empty [] = refl
append_empty (x ∷ xs) = ap (λ t. x ∷ t) (append_empty xs)

-- What a command list does, from the handle `next` on.
pub record Submitted (next : ℕ) (cmds : List Command) (r : ℕ × List Effect) : Type 0 where
  pub count : ℕ
  pub few : count ≤ length cmds
  pub after : r.0 ≡ next + count
  pub given : handles r.1 ≡ up_from next count
  pub done : completed r.1 ≡ statuses cmds

dispatch_all-Submitted :
    (next : ℕ) (cmds : List Command)
    → next + length cmds < 2 ^ 64
    → Submitted next cmds (dispatch_all next cmds)
dispatch_all-Submitted next [] room = record {
  count = 0;
  few = omega arith;
  after = omega arith;
  given = refl;
  done = refl;
}
dispatch_all-Submitted next (cmd ∷ cmds) room =
    let d = dispatch-Dispatched next cmd (omega arith) in
    let es = (dispatch next cmd).1 in
    elim d.given [
      | inl same ↦
          let rest = dispatch_all-Submitted (dispatch next cmd).0 cmds (omega (arith, same.0)) in
          record {
            count = rest.count;
            few = omega (arith, rest.few);
            after = omega (arith, rest.after, same.0);
            given =
                handles-append es _
                ∙ ap (λ t. t ++ handles (dispatch_all (dispatch next cmd).0 cmds).1) same.1
                ∙ rest.given
                ∙ ap (λ t. up_from t rest.count) same.0;
            done =
                completed-append es _
                ∙ ap (λ t. t ++ completed (dispatch_all (dispatch next cmd).0 cmds).1) d.done
                ∙ ap (λ t. cmd.status ∷ t) rest.done;
          }
      | inr new ↦
          let rest = dispatch_all-Submitted (dispatch next cmd).0 cmds (omega (arith, new.0)) in
          record {
            count = suc rest.count;
            few = omega (arith, rest.few);
            after = omega (arith, rest.after, new.0);
            given =
                handles-append es _
                ∙ ap (λ t. t ++ handles (dispatch_all (dispatch next cmd).0 cmds).1) new.1
                ∙ ap (λ t. next ∷ t) (rest.given ∙ ap (λ t. up_from t rest.count) new.0);
            done =
                completed-append es _
                ∙ ap (λ t. t ++ completed (dispatch_all (dispatch next cmd).0 cmds).1) d.done
                ∙ ap (λ t. cmd.status ∷ t) rest.done;
          }
    ]

close_list :
    (next base : ℕ) (cmds : List Command)
    → Submitted next cmds (dispatch_all next cmds)
    → Submitted next cmds (submit_command_list next base cmds)
unfolding submit_command_list
close_list next base cmds s = record {
  count = s.count;
  few = s.few;
  after = s.after;
  given = handles-append (dispatch_all next cmds).1 (freed base ∷ []) ∙ append_empty _ ∙ s.given;
  done = completed-append (dispatch_all next cmds).1 (freed base ∷ []) ∙ append_empty _ ∙ s.done;
}

-- A command list of the driver that draws nowhere: the handles that it hands out are the next ones
-- in order, none twice and none of them 0 where the next one is not, and every command is finished
-- exactly once, in order (while the counter of 64 bits has room).
pub submit_command_list-Submitted :
    (next base : ℕ) (cmds : List Command)
    → next + length cmds < 2 ^ 64
    → Submitted next cmds (submit_command_list next base cmds)
submit_command_list-Submitted next base cmds room =
    close_list next base cmds (dispatch_all-Submitted next cmds room)
