-- ===== src/GlContext/Egl/Made.antt =====
-- How `chimera_egl_make_context` (waterbox/gl-egl.c) ends.
use chimera_core_eka2l.Prelude.{
  ℕ, ◌≡◌, ◌≢◌, refl, Bool, true, false, not, ◌||◌, none, some, is_empty, Bytes, ltb, ◌==◌,
  Bool-cases, inl, inr, arith,
}
use chimera_core_eka2l.GlContext.Egl.{
  core45, any33, Egl, Handles, Ended, current, with_context, or_any33, with_surface, with_config,
  with_api, initialized, with_display, make_context,
}

-- `IsCurrent display context w`: the context is current in the world `w`.
module _ {ℓ} {W : Type ℓ} (e : Egl W) (IsCurrent : ℕ → ℕ → W → Type 0) where
  -- The context comes from a call for version 4.5, or for 3.3 after one for 4.5 that gave none.
  pub data IsCreated (display context : ℕ) : Type ℓ where
    first :
        (config : ℕ) (w : W)
        → (e.create_context display config core45 w).1 ≡ context
        → IsCreated display context
    second :
        (config : ℕ) (w : W)
        → (e.create_context display config core45 w).1 ≡ 0
        → (e.create_context display config any33 (e.create_context display config core45 w).0).1
          ≡ context
        → IsCreated display context

  -- The ways in which the call ends.
  pub data MakeEnds (r : Ended W) : Type ℓ where
    has_context :
        r.error ≡ none
        → r.handles.display ≢ 0
        → r.handles.context ≢ 0
        → IsCreated r.handles.display r.handles.context
        → IsCurrent r.handles.display r.handles.context r.world
        → MakeEnds r
    has_error : (text : Bytes) → r.error ≡ some text → is_empty text ≡ false → MakeEnds r

  current-MakeEnds :
      (h : Handles) (r : W × Bool)
      → h.display ≢ 0
      → h.context ≢ 0
      → IsCreated h.display h.context
      → (r.1 ≡ true → IsCurrent h.display h.context r.0)
      → MakeEnds (current e h r)
  current-MakeEnds h (w, true) d c made is = has_context refl d c made (is refl)
  current-MakeEnds h (w, false) d c made is = has_error _ refl refl

  or_any33-IsCreated :
      (display config : ℕ) (w : W)
      → IsCreated display (or_any33 e display config (e.create_context display config core45 w)).1
  or_any33-IsCreated display config w =
      elim (Bool-cases ((e.create_context display config core45 w).1 == 0)) [
        | inl none_made ↦ rw none_made (second config w (ground (arith, none_made)) refl)
        | inr there ↦ rw there (first config w refl)
      ]

  module _
      (takes : (display surface context : ℕ) (w : W)
        → (e.make_current display surface context w).1 ≡ true
        → IsCurrent display context (e.make_current display surface context w).0) where
    with_context-MakeEnds :
        (surface : ℕ) (h : Handles) (w : W)
        → h.display ≢ 0
        → IsCreated h.display h.context
        → MakeEnds (with_context e surface h w)
    with_context-MakeEnds surface h w d made = elim (Bool-cases (h.context == 0)) [
      | inl none_made ↦ rw none_made (has_error _ refl refl)
      | inr there ↦ rw there (
          current-MakeEnds h (e.make_current h.display surface h.context w) d
            (ground (arith, there)) made (takes h.display surface h.context w))
    ]

    with_surface-MakeEnds :
        (config : ℕ) (h : Handles) (r : W × ℕ)
        → h.display ≢ 0
        → MakeEnds (with_surface e config h r)
    with_surface-MakeEnds config h (w, surface) d = elim (Bool-cases (surface == 0)) [
      | inl none_made ↦ rw none_made (has_error _ refl refl)
      | inr there ↦
          let c = or_any33 e h.display config (e.create_context h.display config core45 w) in
          rw there (
            with_context-MakeEnds surface (record h { context = c.1 }) c.0 d
              (or_any33-IsCreated h.display config w))
    ]

    with_config-MakeEnds :
        (h : Handles) (r : W × (Bool × (ℕ × ℕ))) → h.display ≢ 0 → MakeEnds (with_config e h r)
    with_config-MakeEnds h (w, (ok, (config, count))) d =
        elim (Bool-cases (not ok || ltb count 1)) [
          | inl bad ↦ rw bad (has_error _ refl refl)
          | inr good ↦
              rw good
                (with_surface-MakeEnds config h (e.create_pbuffer_surface h.display config w) d)
        ]

    with_api-MakeEnds : (h : Handles) (r : W × Bool) → h.display ≢ 0 → MakeEnds (with_api e h r)
    with_api-MakeEnds h (w, true) d = with_config-MakeEnds h (e.choose_config h.display w) d
    with_api-MakeEnds h (w, false) d = has_error _ refl refl

    initialized-MakeEnds :
        (h : Handles) (r : W × Bool) → h.display ≢ 0 → MakeEnds (initialized e h r)
    initialized-MakeEnds h (w, true) d = with_api-MakeEnds h (e.bind_api w) d
    initialized-MakeEnds h (w, false) d = has_error _ refl refl

    with_display-MakeEnds : (h : Handles) (r : W × ℕ) → MakeEnds (with_display e h r)
    with_display-MakeEnds h (w, display) = elim (Bool-cases (display == 0)) [
      | inl none_there ↦ rw none_there (has_error _ refl refl)
      | inr there ↦ rw there (
          initialized-MakeEnds (record h { display = display }) (e.initialize display w)
            (ground (arith, there)))
    ]

    -- With an EGL whose `eglMakeCurrent` makes current the context that it answers true for: the call
    -- answers 1, and its display and its context are there, the context is one that EGL made for it,
    -- of version 4.5, or of 3.3 where it got none of 4.5, and is current; or it answers 0 with the text
    -- of an error.
    pub make_context-MakeEnds : (h : Handles) (w : W) → MakeEnds (make_context e h w)
    unfolding make_context
    make_context-MakeEnds h w = with_display-MakeEnds h (e.get_platform_display w)
