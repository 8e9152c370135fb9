-- ===== src/Graphics.antt =====
-- waterbox/null-graphics.cpp: the driver that draws nowhere, and answers every command.
pub mod Handles
use chimera_core_eka2l.Prelude.{
  ℕ, zero, suc, ◌+◌, ◌%◌, ◌^◌, Bool, true, false, not, Option, none, some, List, [], ◌∷◌, ◌++◌,
  ◌==◌, if◌then◌else◌, get_or,
}

-- The opcodes that the driver tells apart; `other` is every other one.
pub data Opcode : Type 0 where
  create_bitmap : Opcode
  create_shader_module : Opcode
  create_input_descriptor : Opcode
  create_renderbuffer : Opcode
  create_buffer : Opcode
  create_framebuffer : Opcode
  create_texture : Opcode
  update_bitmap : Opcode
  update_texture : Opcode
  update_buffer : Opcode
  other : Opcode

-- A command: its data are words, some of them pointers, 0 the null one.
pub record Command : Type 0 where
  pub opcode : Opcode
  pub data_ : List ℕ
  pub status : ℕ

-- What a driver does to the memory of its caller, in order.
pub data Effect : Type 0 where
  wrote : ℕ → ℕ → Effect
  freed : ℕ → Effect
  finished : ℕ → Effect

-- The first switch: none for -1.
unfoldable pub answer_slot : Opcode → Option ℕ
answer_slot create_bitmap = some 2
answer_slot create_shader_module = some 2
answer_slot create_input_descriptor = some 3
answer_slot create_renderbuffer = some 3
answer_slot create_buffer = some 4
answer_slot create_framebuffer = some 6
answer_slot create_texture = some 8
answer_slot update_bitmap = none
answer_slot update_texture = none
answer_slot update_buffer = none
answer_slot other = none

-- The second switch.
unfoldable pub owned_slot : Opcode → Option ℕ
owned_slot create_bitmap = none
owned_slot create_shader_module = none
owned_slot create_input_descriptor = some 0
owned_slot create_renderbuffer = none
owned_slot create_buffer = some 0
owned_slot create_framebuffer = none
owned_slot create_texture = some 1
owned_slot update_bitmap = some 1
owned_slot update_texture = some 1
owned_slot update_buffer = some 1
owned_slot other = none

abbrev pub answer : ℕ → Command → Option ℕ → ℕ × List Effect
answer next cmd none = (next, [])
answer next cmd (some slot) =
    let result = get_or cmd.data_ slot 0 in
    if result == 0 then (next, []) else ((next + 1) % 2 ^ 64, wrote result next ∷ [])

-- `delete[]` of a null pointer does nothing.
abbrev pub release : Command → Option ℕ → List Effect
release cmd none = []
release cmd (some slot) =
    let owned = get_or cmd.data_ slot 0 in if owned == 0 then [] else freed owned ∷ []

-- The driver's state is its next handle.
unfoldable pub dispatch : ℕ → Command → ℕ × List Effect
dispatch next cmd =
    let a = answer next cmd (answer_slot cmd.opcode) in
    (a.0, a.1 ++ release cmd (owned_slot cmd.opcode) ++ finished cmd.status ∷ [])

abbrev pub dispatch_all : ℕ → List Command → ℕ × List Effect
dispatch_all next [] = (next, [])
dispatch_all next (cmd ∷ cmds) =
    let r = dispatch next cmd in let rest = dispatch_all r.0 cmds in (rest.0, r.1 ++ rest.1)

-- The list at `base` is freed last.
unfoldable pub submit_command_list : ℕ → ℕ → List Command → ℕ × List Effect
submit_command_list next base cmds = let r = dispatch_all next cmds in (r.0, r.1 ++ freed base ∷ [])
