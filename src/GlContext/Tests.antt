-- ===== src/GlContext/Tests.antt =====
-- The OpenGL contexts of waterbox/gl-egl.c and waterbox/gl-osmesa.c at concrete inputs.
use chimera_core_eka2l.Prelude.{ℕ, ◌≡◌, refl, arith, Bool, true, false, Option, none, some}
use chimera_core_eka2l.GlContext.Egl.{Version, core45, any33, Egl, Handles, make_context}
use chimera_core_eka2l.GlContext.Egl.Made.{MakeEnds, make_context-MakeEnds}
use chimera_core_eka2l.GlContext.Osmesa.{Osmesa, Gl, osmesa_start}
use chimera_core_eka2l.GlContext.Osmesa.Again.{osmesa_start-osmesa_start}

-- An EGL without version 4.5; its state is the display and the context that are current.
abbrev context_of : Version → ℕ
context_of core45 = 0
context_of any33 = 7

abbrev egl : Egl (Option (ℕ × ℕ))
egl = record {
  get_platform_display = λ w. (w, 3);
  initialize = λ display w. (w, true);
  bind_api = λ w. (w, true);
  choose_config = λ display w. (w, (true, (5, 1)));
  create_pbuffer_surface = λ display config w. (w, 6);
  create_context = λ display config version w. (w, context_of version);
  make_current = λ display surface context w. (some (display, context), true);
}

abbrev IsTheirs : ℕ → ℕ → Option (ℕ × ℕ) → Type 0
IsTheirs display context w = w ≡ some (display, context)

abbrev no_handles : Handles
no_handles = record { display = 0; context = 0 }

egl_context : (make_context egl no_handles none).handles.context ≡ 7
unfolding make_context
egl_context = refl

make_context-MakeEnds_example : MakeEnds egl IsTheirs (make_context egl no_handles none)
make_context-MakeEnds_example =
    make_context-MakeEnds egl IsTheirs (λ display surface context w h. refl) no_handles none

-- A Mesa whose buffer has no room; its state is whether a context is current.
abbrev no_room : Osmesa Bool
no_room = record {
  create_context = λ w. (w, 1);
  calloc = λ n size w. (w, 0);
  make_current = λ context buffer width height w. (true, true);
  pixel_store = λ w. w;
}

abbrev left : Gl Bool
left = record { ctx = 1; buffer = 0; world = false }

osmesa_start-osmesa_start_example :
    ((osmesa_start no_room 640 640 record { ctx = 0; buffer = 0; world = false }).1 ≡ false)
    × (osmesa_start no_room 640 640 left ≡ (left, true))
    × (left.world ≡ false)
unfolding osmesa_start
osmesa_start-osmesa_start_example =
    osmesa_start-osmesa_start no_room (λ w. w ≡ false) (λ w p. p) (λ n k w p. p) 640 640 false refl
      (λ h. absurd (omega arith)) refl 640 640
