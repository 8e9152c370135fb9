-- ===== src/GlContext.antt =====
-- The OpenGL contexts: waterbox/gl-egl.c, which the native reference makes its own with, and
-- waterbox/gl-osmesa.c, with which the sandbox carries one.
pub mod Egl
pub mod Osmesa
mod Tests
