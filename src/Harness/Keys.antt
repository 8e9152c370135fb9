-- ===== src/Harness/Keys.antt =====
-- The keys of a frame, in waterbox/run-wbx.c and in waterbox/run-native.cpp.
use chimera_core_eka2l.Prelude.{
  ℕ, ◌+◌, ◌%◌, ◌^◌, ◌<◌, ◌≡◌, refl, ap, ◌∙◌, Bool, true, false, [], leb, ◌==◌, if◌then◌else◌, arith,
  Bool-cases, inl, inr,
}
use native.Mathlib.Nat.{mod-eq_of_lt}
use chimera_core_eka2l.Run.{u32}
use chimera_core_eka2l.Audio.{ℤ, pos, negsuc, ◌+ℤ◌}
use chimera_core_eka2l.Phone.{Phone, press, frame_us}
use chimera_core_eka2l.Session.{Guest, Session}
use chimera_core_eka2l.Session.Exports.{set_button}
use chimera_core_eka2l.Harness.Native
use chimera_core_eka2l.Harness.Native.{
  Frames, NativeRun, timer_fired, all_fired, is_negative, magnitude, native_frame, native_frames,
  keyed, scripted, pressed_raw,
}
use chimera_core_eka2l.Harness.Wbx
use chimera_core_eka2l.Harness.Wbx.{
  Box, Ran, done, failed, spun, WbxRun, wbx_frame, wbx_frames, ran_next,
}

-- The options of the reference that have a counterpart in the driver: no script, no key at a frame of
-- its own, no raw key, 60 frames a second.
pub record IsPlain (o : Frames) : Type 0 where
  pub slice : o.slice_us ≡ frame_us
  pub no_script : o.script ≡ []
  pub near_end : is_negative o.press_at ≡ true
  pub no_raw : is_negative o.press_raw ≡ true
  pub index : magnitude o.press_button < 2 ^ 31

small_word : (n : ℕ) → n < 2 ^ 31 → n % u32 ≡ n
small_word n h = mod-eq_of_lt (omega arith)

not_large : (n : ℕ) → n < 2 ^ 31 → leb (2 ^ 31) n ≡ false
not_large n h = ground arith

module _ {ℓ} {S F V : Type ℓ} (g : Guest S F V) where
  -- The keys of a frame where nothing but `--press` is given.
  unfoldable pub near_end_keys : ℤ → ℕ → ℕ → Phone S → Phone S
  near_end_keys (negsuc n) frames f p = p
  near_end_keys (pos n) frames f p =
      if f + 200 == frames
      then press g.sys false n true p
      else if f + 180 == frames
      then press g.sys false n false p
      else p

  set_button_on :
      (n : ℕ) (held : Bool) (s : Session S)
      → n < 2 ^ 31
      → s.inited ≡ true
      → set_button g (leb (2 ^ 31) (n % u32)) (n % u32) (if held then 1 else 0) s
        ≡ record s { machine = press g.sys false n held s.machine }
  unfolding set_button
  set_button_on n true s small on = rw (small_word n small, not_large n small, on) refl
  set_button_on n false s small on = rw (small_word n small, not_large n small, on) refl

  module _ (box : Box S) (queue_raw : Bool → ℕ → S → S) where
    pub wbx_pressed :
        (b : ℤ) (frames f : ℕ) (s : Session S)
        → magnitude b < 2 ^ 31
        → s.inited ≡ true
        → Wbx.pressed g box b frames f s ≡ record s { machine = near_end_keys b frames f s.machine }
    unfolding Wbx.pressed near_end_keys
    wbx_pressed (negsuc n) frames f s small on = refl
    wbx_pressed (pos n) frames f s small on = elim (Bool-cases (f + 200 == frames)) [
      | inl down ↦ rw down (set_button_on n true s small on)
      | inr early ↦ elim (Bool-cases (f + 180 == frames)) [
        | inl up ↦ rw (early, up) (set_button_on n false s small on)
        | inr other ↦ rw (early, other) refl
      ]
    ]

    native_pressed :
        (o : Frames) (b : ℤ) (f : ℕ) (p : Phone S)
        → o.press_button ≡ b
        → is_negative o.press_at ≡ true
        → Native.pressed g queue_raw o f p ≡ near_end_keys b o.frames f p
    unfolding Native.pressed near_end_keys
    native_pressed o (negsuc n) f p e near =
        ap
          (λ b.
            if is_negative b
            then p
            else if Native.down_at g queue_raw o f
            then Native.set_button g queue_raw b true p
            else if Native.up_at g queue_raw o f
            then Native.set_button g queue_raw b false p
            else p)
          e
    native_pressed o (pos n) f p e near =
        ap
          (λ b.
            if is_negative b
            then p
            else if Native.down_at g queue_raw o f
            then Native.set_button g queue_raw b true p
            else if Native.up_at g queue_raw o f
            then Native.set_button g queue_raw b false p
            else p)
          e
        ∙ ap
            (λ d.
              if (if d then f + 200 == o.frames else Native.at_frame o.press_at f)
              then press g.sys false n true p
              else if (if d then f + 180 == o.frames else Native.at_frame (o.press_at +ℤ pos 20) f)
              then press g.sys false n false p
              else p)
            near

    not_raw :
        (o : Frames) (f : ℕ) (p : Phone S)
        → is_negative o.press_raw ≡ true
        → pressed_raw g queue_raw o f p ≡ p
    unfolding pressed_raw
    not_raw o f p none_given = rw none_given refl

    pub keyed_plain :
        (o : Frames) (f : ℕ) (p : Phone S)
        → IsPlain o
        → keyed g queue_raw o f p ≡ near_end_keys o.press_button o.frames f p
    unfolding scripted pressed_raw
    keyed_plain o f p plain =
        ap
          (λ l.
            pressed_raw g queue_raw o f
              (Native.pressed g queue_raw o f (scripted g queue_raw l f p)))
          plain.no_script
        ∙ not_raw o f (Native.pressed g queue_raw o f p) plain.no_raw
        ∙ native_pressed o o.press_button f p refl plain.near_end
