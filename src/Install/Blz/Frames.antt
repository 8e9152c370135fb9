-- ===== src/Install/Blz/Frames.antt =====
-- The frames in which the unpacker of `install_blz` (waterbox/machine.cpp) runs.
use chimera_core_eka2l.Prelude.{
  ℕ, zero, suc, ◌+◌, ◌-◌, ◌*◌, ◌≤◌, ◌<◌, ◌≡◌, refl, sym, ap, ◌∙◌, subst, Bool, true, false, not,
  Option, some, List, [], ◌∷◌, if◌then◌else◌, arith, get_or, set, Bool-cases, inl, inr,
}
use chimera_core_eka2l.Vclock.{u64}
use chimera_core_eka2l.Run.{u32}
use chimera_core_eka2l.Run.Progress.{IsRunning, IsPaced, suc_mul}
use chimera_core_eka2l.Keypad.{set_button}
use chimera_core_eka2l.Install.Blz.{
  soft_left, install_frame, give_up_frame, keys, finished, after_frame, frames,
}
use chimera_core_eka2l.Phone.{System, Phone, frame_us, press, run_frame}
use chimera_core_eka2l.Phone.Frames.{Stepped, run_frame-Stepped}

get_or-set : (xs : List Bool) (i : ℕ) → get_or (set xs i false) i false ≡ false
get_or-set [] i = refl
get_or-set (x ∷ xs) zero = refl
get_or-set (x ∷ xs) (suc i) = get_or-set xs i

-- The time that the frames up to the first that may be the last one take.
frames_left :
    (frame : ℕ)
    → (install_frame + 22 - frame) * frame_us
      ≤ (install_frame + 22 - suc frame) * frame_us + frame_us
frames_left frame = omega arith

last_frame :
    (frame : ℕ) → install_frame + 20 < frame → (install_frame + 22 - suc frame) * frame_us ≤ 0
last_frame frame late = omega arith

-- The soft key is up.
abbrev pub is_up : List Bool → Bool
is_up buttons = not (get_or buttons soft_left false)

module _ {ℓ} {S F : Type ℓ} (sys : System S F) where
  press_machine :
      (p : Phone S) (held : Bool)
      → (press sys false soft_left held p).machine.clock ≡ p.machine.clock
  unfolding press
  press_machine p held = refl

  press_up : (p : Phone S) → is_up (press sys false soft_left false p).buttons ≡ true
  unfolding press set_button
  press_up p = ground (arith, get_or-set p.buttons soft_left)

  keys_clock : (frame : ℕ) (p : Phone S) → (keys sys frame p).machine.clock ≡ p.machine.clock
  unfolding keys press
  keys_clock frame p = ground arith

  keys_apps :
      (frame : ℕ) (p : Phone S) → (keys sys frame p).apps_before_install ≡ p.apps_before_install
  unfolding keys press
  keys_apps frame p = ground arith

  -- From the frame of the second release on, the soft key is up.
  keys_up :
      (frame : ℕ) (p : Phone S)
      → install_frame + 20 ≤ frame
      → (install_frame + 20 < frame → is_up p.buttons ≡ true)
      → is_up (keys sys frame p).buttons ≡ true
  unfolding keys
  keys_up frame p late up = ground (arith, press_up p, up)

-- What the frames leave, from the frame `frame` on.
pub record Unpacked {ℓ} {S : Type ℓ} (r frame : ℕ) (p : Phone S) (o : Option (Phone S))
    : Type ℓ where
  pub phone : Phone S
  pub result : o ≡ some phone
  pub running : IsRunning r phone.machine.clock
  pub same : phone.apps_before_install ≡ p.apps_before_install
  pub later :
      p.machine.clock.now_us + (install_frame + 22 - frame) * frame_us ≤ phone.machine.clock.now_us
  pub up : is_up phone.buttons ≡ true

module _ {ℓ} {S F : Type ℓ} (sys : System S F) (r quota fuel : ℕ) (paced : IsPaced quota sys.loop)
    (few : quota < u32) (enough : frame_us * r ≤ fuel) where
  -- One frame with its keys.
  keyed :
      (frame : ℕ) (p : Phone S)
      → IsRunning r p.machine.clock
      → p.machine.clock.now_us + r + (frame_us + quota * 1000000) < u64
      → Stepped r quota (keys sys frame p) (run_frame sys fuel (keys sys frame p))
  keyed frame p run room =
      let c = keys_clock sys frame p in
      run_frame-Stepped sys r quota fuel paced few enough (keys sys frame p)
        (subst (IsRunning r) (sym c) run)
        (subst (λ t. t.now_us + r + (frame_us + quota * 1000000) < u64) (sym c) room)

  frames_broken :
      (n frame : ℕ) (p q : Phone S)
      → run_frame sys fuel (keys sys frame p) ≡ some q
      → finished sys frame q ≡ true
      → frames sys fuel (suc n) frame p ≡ some q
  unfolding frames
  frames_broken n frame p q ran done =
      ap (λ o. after_frame sys frame o (frames sys fuel n (suc frame))) ran
      ∙ ap (λ b. if b then some q else frames sys fuel n (suc frame) q) done

  frames_on :
      (n frame : ℕ) (p q : Phone S)
      → run_frame sys fuel (keys sys frame p) ≡ some q
      → finished sys frame q ≡ false
      → frames sys fuel (suc n) frame p ≡ frames sys fuel n (suc frame) q
  unfolding frames
  frames_on n frame p q ran more =
      ap (λ o. after_frame sys frame o (frames sys fuel n (suc frame))) ran
      ∙ ap (λ b. if b then some q else frames sys fuel n (suc frame) q) more

  finished_late :
      (frame : ℕ) (q : Phone S) → finished sys frame q ≡ true → install_frame + 20 < frame
  unfolding finished
  finished_late frame q done = ground (arith, done)

  pub frames-Unpacked :
      (n frame : ℕ) (p : Phone S)
      → frame + n ≡ give_up_frame
      → IsRunning r p.machine.clock
      → p.machine.clock.now_us + r + n * (frame_us + quota * 1000000) < u64
      → (install_frame + 20 < frame → is_up p.buttons ≡ true)
      → Unpacked r frame p (frames sys fuel n frame p)
  unfolding frames
  frames-Unpacked zero frame p at run room up = record {
    phone = p;
    result = refl;
    running = run;
    same = refl;
    later = omega (arith, at);
    up = up (omega (arith, at));
  }
  frames-Unpacked (suc n) frame p at run room up =
      let step : ℕ = frame_us + quota * 1000000 in
      let grow = suc_mul n step in
      let s = keyed frame p run (omega (arith, grow)) in
      let c = ap (λ t. t.now_us) (keys_clock sys frame p) in
      let apps = s.same ∙ keys_apps sys frame p in
      let up' : install_frame + 20 ≤ frame → is_up s.phone.buttons ≡ true =
        λ late. ap is_up s.kept ∙ keys_up sys frame p late up in
      elim (Bool-cases (finished sys frame s.phone)) [
        | inl done ↦
            let late = finished_late frame s.phone done in
            record {
              phone = s.phone;
              result = frames_broken n frame p s.phone s.result done;
              running = s.running;
              same = apps;
              later = omega (arith, late, c, s.later, frames_left frame, last_frame frame late);
              up = up' (omega (arith, late));
            }
        | inr more ↦
            let rest =
              frames-Unpacked n (suc frame) s.phone (omega (arith, at)) s.running
                (omega (arith, grow, c, s.near)) (λ late. up' (omega (arith, late))) in
            record {
              phone = rest.phone;
              result = frames_on n frame p s.phone s.result more ∙ rest.result;
              running = rest.running;
              same = rest.same ∙ apps;
              later = omega (arith, c, s.later, rest.later, frames_left frame);
              up = rest.up;
            }
      ]
