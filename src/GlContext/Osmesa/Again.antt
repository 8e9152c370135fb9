-- ===== src/GlContext/Osmesa/Again.antt =====
-- A second call of `chimera_osmesa_start` (waterbox/gl-osmesa.c).
use chimera_core_eka2l.Prelude.{ℕ, ◌*◌, ◌%◌, ◌≡◌, ◌≢◌, refl, sym, subst, true, false, arith}
use chimera_core_eka2l.Vclock.{u64}
use chimera_core_eka2l.GlContext.Osmesa.{Osmesa, Gl, osmesa_start}

module _ {ℓ} {W : Type ℓ} (o : Osmesa W) where
  -- The call that is left without a buffer.
  abbrev without_buffer : ℕ → ℕ → W → Gl W
  without_buffer width height w =
      let c = o.create_context w in
      let b = o.calloc (width * height % u64) 4 c.0 in
      record { ctx = c.1; buffer = b.1; world = b.0 }

  osmesa_start-without_buffer :
      (width height : ℕ) (w : W)
      → (o.create_context w).1 ≢ 0
      → (o.calloc (width * height % u64) 4 (o.create_context w).0).1 ≡ 0
      → osmesa_start o width height record { ctx = 0; buffer = 0; world = w }
        ≡ (without_buffer width height w, false)
  unfolding osmesa_start
  osmesa_start-without_buffer width height w made no_room = ground (arith, made, no_room)

  osmesa_start_again :
      (width height : ℕ) (g : Gl W) → g.ctx ≢ 0 → osmesa_start o width height g ≡ (g, true)
  unfolding osmesa_start
  osmesa_start_again width height g there = ground (arith, there)

  -- Where a context is made but there is no memory for its buffer, the call answers false; any later
  -- call answers true, and changes nothing: of whatever holds of the world and that neither making a
  -- context nor asking for memory can end, as that no context is current, it leaves it so.
  pub osmesa_start-osmesa_start :
      (P : W → Type 0)
      → ((w : W) → P w → P (o.create_context w).0)
      → ((n k : ℕ) (w : W) → P w → P (o.calloc n k w).0)
      → (width height : ℕ) (w : W) → P w
      → (o.create_context w).1 ≢ 0
      → (o.calloc (width * height % u64) 4 (o.create_context w).0).1 ≡ 0
      → (again_width again_height : ℕ)
      → let first = osmesa_start o width height record { ctx = 0; buffer = 0; world = w } in
        (first.1 ≡ false)
        × (osmesa_start o again_width again_height first.0 ≡ (first.0, true))
        × P first.0.world
  osmesa_start-osmesa_start P creates allocates width height w p made no_room a b =
      subst
        (λ first.
          (first.1 ≡ false) × (osmesa_start o a b first.0 ≡ (first.0, true)) × P first.0.world)
        (sym (osmesa_start-without_buffer width height w made no_room))
        (
          refl,
          osmesa_start_again a b (without_buffer width height w) made,
          allocates (width * height % u64) 4 (o.create_context w).0 (creates w p),
        )
