-- ===== src/Harness/Agree.antt =====
-- The sandboxed machine of waterbox/run-wbx.c against the native reference of waterbox/run-native.cpp.
use chimera_core_eka2l.Prelude.{
  ℕ, zero, suc, ◌≡◌, refl, sym, ap, ◌∙◌, Bool, true, false, Option, none, some, List, [], ◌∷◌,
  Bool-cases, inl, inr,
}
use chimera_core_eka2l.Run.{Machine, run_for_us}
use chimera_core_eka2l.Screen.{Picture}
use chimera_core_eka2l.Phone.{Phone, with_world, frame_us, ran, run_frame}
use chimera_core_eka2l.Session.{
  Guest, Session, Timer, TimerCall, timer_due, all_due, fits, show, heard, picture_of, advanced,
  frame_advance, render_audio,
}
use chimera_core_eka2l.Session.Frames.{frame_advance_on}
use chimera_core_eka2l.Harness.Native
use chimera_core_eka2l.Harness.Native.{
  Frames, NativeRun, timer_fired, all_fired, is_negative, magnitude, native_frame, native_frames,
  keyed, scripted, pressed_raw,
}
use chimera_core_eka2l.Harness.Wbx
use chimera_core_eka2l.Harness.Keys.{IsPlain, near_end_keys, wbx_pressed, keyed_plain}
use chimera_core_eka2l.Harness.Wbx.{
  Box, Ran, done, failed, spun, WbxRun, wbx_frame, wbx_frames, ran_next,
}

all_fired-all_due : (calls : List TimerCall) (t : Timer) → all_due calls t ≡ all_fired calls t
unfolding timer_due timer_fired
all_fired-all_due [] t = refl
all_fired-all_due (c ∷ calls) t = all_fired-all_due calls (timer_due c t)

-- How two runs stand together: both go on, with one machine and one timer check, or both are out of
-- fuel in the same frame.
pub data Together {ℓ} {S : Type ℓ} (w : Ran (WbxRun S)) (n : Option (NativeRun S)) : Type ℓ where
  both_done :
      (x : WbxRun S) (r : NativeRun S)
      → w ≡ done x
      → n ≡ some r
      → x.session.inited ≡ true
      → x.session.machine ≡ r.phone
      → x.session.timer ≡ r.timer
      → Together w n
  both_spun : w ≡ spun → n ≡ none → Together w n

Together-eq {ℓ} :
    {S : Type ℓ} {w x : Ran (WbxRun S)} {n q : Option (NativeRun S)}
    → w ≡ x
    → n ≡ q
    → Together x q
    → Together w n
Together-eq a b (both_done x r c d on e t) = both_done x r (a ∙ c) (b ∙ d) on e t
Together-eq a b (both_spun c d) = both_spun (a ∙ c) (b ∙ d)

module _ {ℓ} {S F V : Type ℓ} (g : Guest S F V) where
  show_phone :
      (s : Session S) (r : Picture × Bool)
      → ((show g s r).machine ≡ s.machine)
        × ((show g s r).inited ≡ s.inited)
        × ((show g s r).timer ≡ s.timer)
  show_phone s (pic, there) = elim (Bool-cases (fits g (pic, there))) [
    | inl taken ↦ rw taken (refl, refl, refl)
    | inr left ↦ rw left (refl, refl, refl)
  ]

  module _ (box : Box S) (queue_raw : Bool → ℕ → S → S) where
    ran-Together :
        (w : WbxRun S) (s : Session S) (r : NativeRun S) (p : Phone S) (x : Option (Machine S × ℕ))
        → s.inited ≡ true
        → s.machine ≡ p
        → s.timer ≡ r.timer
        → Together
            (Wbx.advanced g box w (advanced g s (ran g.sys s.machine x)))
            (Native.after_run g queue_raw r p x)
    ran-Together w s r p none on e t = both_spun refl refl
    ran-Together w s r p (some (m, loops)) on e t =
        let q : Phone S = record s.machine { machine = m } in
        let shown = show_phone (heard g s q) (picture_of g s q) in
        both_done _ _ refl refl (shown.1 ∙ on)
          (shown.0
            ∙ ap
                (λ (a : Phone S).
                  with_world g.sys (record a { machine = m })
                    (g.display (render_audio g 735 m.world).0).0)
                e)
          (shown.2
            ∙ all_fired-all_due (g.timer_calls m.world) s.timer
            ∙ ap (all_fired (g.timer_calls m.world)) t)

    frame-Together :
        (fuel f : ℕ) (o : Frames) (w : WbxRun S) (r : NativeRun S)
        → IsPlain o
        → w.session.inited ≡ true
        → w.session.machine ≡ r.phone
        → w.session.timer ≡ r.timer
        → Together
            (wbx_frame g box fuel false o.press_button o.frames f w)
            (native_frame g queue_raw fuel o f r)
    unfolding wbx_frame native_frame run_frame
    frame-Together fuel f o w r plain on e t =
        let s : Session S = record w.session {
          machine = near_end_keys g o.press_button o.frames f w.session.machine;
        } in
        let p = near_end_keys g o.press_button o.frames f r.phone in
        let same : s.machine ≡ p = ap (near_end_keys g o.press_button o.frames f) e in
        Together-eq
          (ap
              (λ (q : Session S).
                Wbx.advanced g box (record w { session = q }) (frame_advance g fuel q))
              (wbx_pressed g box queue_raw o.press_button o.frames f w.session plain.index on)
            ∙ ap (Wbx.advanced g box (record w { session = s })) (frame_advance_on g fuel s on))
          (ap
              (λ (q : Phone S).
                Native.after_run g queue_raw r q (run_for_us g.sys.loop fuel q.machine o.slice_us))
              (keyed_plain g box queue_raw o f r.phone plain)
            ∙ ap (λ us. Native.after_run g queue_raw r p (run_for_us g.sys.loop fuel p.machine us))
                plain.slice
            ∙ ap
                (λ (q : Phone S).
                  Native.after_run g queue_raw r p (run_for_us g.sys.loop fuel q.machine frame_us))
                (sym same))
          (ran-Together (record w { session = s }) s r p
            (run_for_us g.sys.loop fuel s.machine.machine frame_us) on same t)

    -- The sandbox and the native reference run one machine: started from the same machine and timer
    -- check, with the options that both have (a key at most, held near the end, and 60 frames a second),
    -- after any number of frames both have the same machine and the same counts of the timer check, or
    -- both are out of fuel.
    pub wbx_frames-native_frames :
        (fuel n f : ℕ) (o : Frames) (w : WbxRun S) (r : NativeRun S)
        → IsPlain o
        → w.session.inited ≡ true
        → w.session.machine ≡ r.phone
        → w.session.timer ≡ r.timer
        → Together
            (wbx_frames g box fuel false o.press_button o.frames n f w)
            (native_frames g queue_raw fuel o n f r)
    unfolding wbx_frames native_frames
    wbx_frames-native_frames fuel zero f o w r plain on e t = both_done w r refl refl on e t
    wbx_frames-native_frames fuel (suc n) f o w r plain on e t =
        elim (frame-Together fuel f o w r plain on e t) [
          | both_done x q a b on' e' t' ↦
              Together-eq
                (ap (ran_next g box (wbx_frames g box fuel false o.press_button o.frames n (suc f)))
                  a)
                (ap (Native.native_next g queue_raw (native_frames g queue_raw fuel o n (suc f))) b)
                (wbx_frames-native_frames fuel n (suc f) o x q plain on' e' t')
          | both_spun a b ↦
              both_spun
                (ap (ran_next g box (wbx_frames g box fuel false o.press_button o.frames n (suc f)))
                  a)
                (ap (Native.native_next g queue_raw (native_frames g queue_raw fuel o n (suc f))) b)
        ]
