-- ===== src/GlContext/Osmesa.antt =====
-- waterbox/gl-osmesa.c: `chimera_osmesa_start` over Mesa's calls and `calloc`, which are parameters.
pub mod Again
use chimera_core_eka2l.Prelude.{ℕ, ◌*◌, ◌%◌, Bool, true, false, ◌==◌, if◌then◌else◌}
use chimera_core_eka2l.Vclock.{u64}

-- The calls, with the other arguments that are constants in the code; a handle 0 is none.
pub record Osmesa {ℓ} (W : Type ℓ) : Type ℓ where
  pub create_context : W → W × ℕ
  pub calloc : ℕ → ℕ → W → W × ℕ
  pub make_current : ℕ → ℕ → ℕ → ℕ → W → W × Bool
  pub pixel_store : W → W

-- `g_ctx` and `g_buffer`, and the world.
pub record Gl {ℓ} (W : Type ℓ) : Type ℓ where
  pub ctx : ℕ
  pub buffer : ℕ
  pub world : W

module _ {ℓ} {W : Type ℓ} (o : Osmesa W) where
  abbrev pub stored : Gl W → W × Bool → Gl W × Bool
  stored g (w, false) = (record g { world = w }, false)
  stored g (w, true) = (record g { world = o.pixel_store w }, true)

  abbrev pub with_buffer : ℕ → ℕ → Gl W → W × ℕ → Gl W × Bool
  with_buffer width height g (w, buffer) =
      let h = record g { buffer = buffer; world = w } in
      if buffer == 0 then (h, false) else stored h (o.make_current g.ctx buffer width height w)

  abbrev pub with_context : ℕ → ℕ → Gl W → W × ℕ → Gl W × Bool
  with_context width height g (w, ctx) =
      let h = record g { ctx = ctx; world = w } in
      if ctx == 0
      then (h, false)
      else with_buffer width height h (o.calloc (width * height % u64) 4 w)

  unfoldable pub osmesa_start : ℕ → ℕ → Gl W → Gl W × Bool
  osmesa_start width height g =
      if g.ctx == 0 then with_context width height g (o.create_context g.world) else (g, true)
