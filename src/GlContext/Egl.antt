-- ===== src/GlContext/Egl.antt =====
-- waterbox/gl-egl.c: `chimera_egl_make_context` over the calls of EGL, which are parameters.
pub mod Made
use chimera_core_eka2l.Prelude.{
  ℕ, Bool, true, false, not, ◌||◌, Option, none, some, Bytes, codes, ltb, ◌==◌, if◌then◌else◌,
}

-- The attributes of a context: `core45` or `any33`.
pub data Version : Type 0 where
  core45 any33 : Version

-- The calls, with the other arguments that are constants in the code. A handle 0 is EGL's none. What
-- `eglChooseConfig` answers comes with the configuration and the count that it stores.
pub record Egl {ℓ} (W : Type ℓ) : Type ℓ where
  pub get_platform_display : W → W × ℕ
  pub initialize : ℕ → W → W × Bool
  pub bind_api : W → W × Bool
  pub choose_config : ℕ → W → W × (Bool × (ℕ × ℕ))
  pub create_pbuffer_surface : ℕ → ℕ → W → W × ℕ
  pub create_context : ℕ → ℕ → Version → W → W × ℕ
  pub make_current : ℕ → ℕ → ℕ → W → W × Bool

-- `s_display` and `s_context`.
pub record Handles : Type 0 where
  pub display : ℕ
  pub context : ℕ

-- How the call ends: the answer is 1 without an error.
pub record Ended {ℓ} (W : Type ℓ) : Type ℓ where
  pub handles : Handles
  pub world : W
  pub error : Option Bytes

module _ {ℓ} {W : Type ℓ} (e : Egl W) where
  abbrev pub refused : Handles → W → Bytes → Ended W
  refused h w text = record { handles = h; world = w; error = some text }

  abbrev pub current : Handles → W × Bool → Ended W
  current h (w, true) = record { handles = h; world = w; error = none }
  current h (w, false) = refused h w (codes "eglMakeCurrent failed")

  abbrev pub with_context : ℕ → Handles → W → Ended W
  with_context surface h w =
      if h.context == 0
      then refused h w (codes "eglCreateContext failed")
      else current h (e.make_current h.display surface h.context w)

  -- The context of version 3.3, where there is none of 4.5.
  abbrev pub or_any33 : ℕ → ℕ → W × ℕ → W × ℕ
  or_any33 display config (w, context) =
      if context == 0 then e.create_context display config any33 w else (w, context)

  abbrev pub with_surface : ℕ → Handles → W × ℕ → Ended W
  with_surface config h (w, surface) =
      let c = or_any33 h.display config (e.create_context h.display config core45 w) in
      if surface == 0
      then refused h w (codes "eglCreatePbufferSurface failed")
      else with_context surface (record h { context = c.1 }) c.0

  abbrev pub with_config : Handles → W × (Bool × (ℕ × ℕ)) → Ended W
  with_config h (w, (ok, (config, count))) =
      if not ok || ltb count 1
      then refused h w (codes "no EGL config with desktop OpenGL")
      else with_surface config h (e.create_pbuffer_surface h.display config w)

  abbrev pub with_api : Handles → W × Bool → Ended W
  with_api h (w, true) = with_config h (e.choose_config h.display w)
  with_api h (w, false) = refused h w (codes "no desktop OpenGL through EGL")

  abbrev pub initialized : Handles → W × Bool → Ended W
  initialized h (w, true) = with_api h (e.bind_api w)
  initialized h (w, false) = refused h w (codes "eglInitialize failed")

  abbrev pub with_display : Handles → W × ℕ → Ended W
  with_display h (w, display) =
      let g = record h { display = display } in
      if display == 0
      then refused g w (codes "no surfaceless EGL display")
      else initialized g (e.initialize display w)

  unfoldable pub make_context : Handles → W → Ended W
  make_context h w = with_display h (e.get_platform_display w)
