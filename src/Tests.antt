-- ===== src/Tests.antt =====
-- The machine of waterbox/machine.cpp, its clock, sound and drivers, and the exports of
-- waterbox/wbx-entry.cpp, at concrete inputs.
use chimera_core_eka2l.Prelude.{
  codes, ℕ, suc, ◌+◌, ◌*◌, ◌/◌, ◌%◌, ◌≤◌, ◌≡◌, refl, ap, eqb, length, true, false, none, some, List,
  [], ◌∷◌, ◌==◌, replicate, arith, if◌then◌else◌,
}
use chimera_core_eka2l.Vclock.{virtual_clock, elapsed_us}
use chimera_core_eka2l.Vclock.Exact.{spend_all, elapsed-spend_all}
use chimera_core_eka2l.Run.{Emulator, Machine, run_for_us}
use chimera_core_eka2l.Run.Ends.{Ended, run_for_us-Ended}
use chimera_core_eka2l.Bus.{byte_at, Bus, Host, peek_user, poke_user, read_bus}
use chimera_core_eka2l.Bus.Cache.{translate}
use chimera_core_eka2l.Bus.Exports.{peek_bus_all, read_bus-peek_bus, peek_user-poke_user}
use chimera_core_eka2l.Apps.{AppList, Apps, launch_installed_app, launch_app, choose, holds}
use chimera_core_eka2l.Apps.Chosen.{Launched, launch_installed_app_lem}
use chimera_core_eka2l.Screen.{Panel, Picture, colour_check_12bpp}
use chimera_core_eka2l.Graphics.{Command, create_bitmap, update_bitmap, submit_command_list}
use chimera_core_eka2l.Graphics.Handles.{Submitted, submit_command_list-Submitted}
use chimera_core_eka2l.Keypad.{button_index, button_9, keypad, button_count, button_name}
use chimera_core_eka2l.Keypad.Held.{Press, press_all, replay, press_all-replay}
use chimera_core_eka2l.Start.{days_from_civil, last_day, leap}
use chimera_core_eka2l.Start.Calendar.{number, next_day, days_from_civil-next_day}
use chimera_core_eka2l.HostUi.{Callbacks}
use chimera_core_eka2l.HostUi.Answers.{asks, pumps, turns, Served, turns-Served}
use chimera_core_eka2l.Savestate.{StateBuf, state_write, for_save, for_load}
use chimera_core_eka2l.Savestate.RoundTrip.{write_all, read_all, write_all-read_all}
use chimera_core_eka2l.Provision.{no_arguments, parse_arguments}

elapsed-spend_all_example :
    let c = spend_all (3 ∷ 4 ∷ []) (virtual_clock 1000 2000000) in
    (elapsed_us c ≡ 7 * 1000000 / 2000000)
    × (c.remainder ≡ 7 * 1000000 % 2000000)
    × (c.instructions ≡ 7)
elapsed-spend_all_example = elapsed-spend_all 1000 2000000 (3 ∷ 4 ∷ []) (omega arith)

-- A machine whose world is a number: it runs one instruction while that is odd, and its timer is
-- due in 2 us.
abbrev counter : Emulator ℕ
counter = record {
  runnable = true;
  loop = λ w c. (w + 1, (if w % 2 == 1 then 1 else 0) ∷ []);
  pump = λ w. w;
  advance = λ w c. (w, some 2);
}

abbrev at_rest : Machine ℕ
at_rest = record { clock = virtual_clock 100 1000000; slice_instructions = 0; world = 0 }

run_for_us-Ended_example : Ended 1000000 1 110 (run_for_us counter 10000000 at_rest 10)
unfolding virtual_clock
run_for_us-Ended_example =
    run_for_us-Ended counter 1 at_rest 10 10000000 record { rate = refl; small = omega arith }
      (λ w c. ground arith) (omega arith) (omega arith) (omega arith)

-- One page is mapped, at 4096, and the byte at a host address is the address itself.
abbrev one_page : Bus
one_page = record {
  pages = some (λ page. if page == 4096 then some 500 else none);
  memory = λ a. a % 256;
  cached_page = 4294967295;
  cached_host = none;
}

abbrev host : Host
host = record { inited = true; bus = one_page }

read_bus-peek_bus_example : (read_bus host 0 false 8190 false 4).1 ≡ (peek_bus_all host 8190 4).1
read_bus-peek_bus_example = read_bus-peek_bus host 8190 4 refl tt (omega arith) (omega arith)

peek_user-poke_user_example :
    ((peek_user (poke_user one_page 4100 77) 4100).1 ≡ 77)
    × ((peek_user (poke_user one_page 4100 77) 4101).1 ≡ (peek_user one_page 4101).1)
unfolding translate
peek_user-poke_user_example =
    peek_user-poke_user one_page 4100 504 77 4101 tt refl
      (λ e. omega (arith, ap (byte_at (λ a. a)) e))

abbrev server : AppList
server = record { registerations = 5 ∷ 9 ∷ 7 ∷ []; launches = λ uid. true }

abbrev phone : Apps
phone = record { applist = some server; apps_before_install = 5 ∷ []; launched_uid = 0 }

launch_installed_app_lem_example : Launched phone server (launch_installed_app phone)
unfolding holds
launch_installed_app_lem_example = launch_installed_app_lem phone server refl refl

lowest_new : (launch_installed_app phone).1 ≡ 7
unfolding launch_installed_app launch_app choose holds
lowest_new = refl

colours : colour_check_12bpp ≡ true
unfolding colour_check_12bpp
colours = refl

abbrev panel : Panel
panel = record {
  screen_buffer_chunk = true;
  rotation = 0;
  size_x = 2;
  size_y = 2;
  bpp = 12;
  pitch = 8;
  base = some (λ a. a % 16);
}

abbrev black : Picture
black = record { out = []; width = 0; height = 0 }

abbrev commands : List Command
commands =
    record { opcode = create_bitmap; data_ = 0 ∷ 0 ∷ 900 ∷ []; status = 1 }
    ∷ record { opcode = update_bitmap; data_ = 0 ∷ 800 ∷ []; status = 2 }
    ∷ []

submit_command_list-Submitted_example : Submitted 1 commands (submit_command_list 1 700 commands)
submit_command_list-Submitted_example = submit_command_list-Submitted 1 700 commands (omega arith)

days_from_civil-next_day_example :
    (number (next_day 2000 2 29) ≡ suc (days_from_civil 2000 2 29))
    × (days_from_civil 1980 1 1 ≡ 3652)
unfolding last_day leap
days_from_civil-next_day_example =
    days_from_civil-next_day 2000 2 29 (omega arith) (omega arith) (omega arith) (omega arith)
      (omega arith)

abbrev presses : List Press
presses =
    record { sign = false; index = 4; held = true }
    ∷ record { sign = false; index = 4; held = true }
    ∷ record { sign = false; index = 99; held = true }
    ∷ record { sign = false; index = 4; held = false }
    ∷ record { sign = false; index = 9; held = true }
    ∷ []

press_all-replay_example :
    replay (press_all presses (keypad true)).queued (replicate button_count false)
    ≡ (press_all presses (keypad true)).buttons
press_all-replay_example = press_all-replay presses

nine_named : button_name false (button_index button_9) ≡ codes "9"
unfolding button_name button_index
nine_named = refl

-- The callback of the first dialog raises two more, one of them without a callback.
abbrev callbacks : Callbacks ℕ
callbacks = record {
  call = λ callback button w. (w + 1, if callback == 1 then some 2 ∷ none ∷ [] else []);
}

turns-Served_example :
    Served callbacks
      (record { world = 0; pending = [] })
      (turns callbacks (asks (some 1) ∷ pumps ∷ pumps ∷ []) (record { world = 0; pending = [] }))
turns-Served_example =
    turns-Served callbacks (asks (some 1) ∷ pumps ∷ pumps ∷ []) (record { world = 0; pending = [] })

abbrev buffer : StateBuf
buffer = record { p = 9 ∷ []; cap = 1; pos = 1 }

write_all-read_all_example :
    let w = (write_all (λ size. true) ((1 ∷ 2 ∷ []) ∷ (3 ∷ []) ∷ []) (for_save buffer)).0 in
    (read_all (1 ∷ 1 ∷ 5 ∷ []) (for_load w) ≡ 1 ∷ 2 ∷ 3 ∷ []) × (length w.p ≤ w.cap)
unfolding write_all state_write for_save
write_all-read_all_example =
    write_all-read_all (λ size. true) ((1 ∷ 2 ∷ []) ∷ (3 ∷ []) ∷ []) (1 ∷ 1 ∷ 5 ∷ []) buffer
      (omega arith) refl (omega arith)

-- An option without a value is refused, as an unknown one is.
rom_given :
    parse_arguments (codes "--rom" ∷ codes "SYM.ROM" ∷ []) no_arguments
    ≡ some record { storage = codes "data"; rom = codes "SYM.ROM"; rpkg = [] }
unfolding parse_arguments eqb
rom_given = refl

no_value : parse_arguments (codes "--rom" ∷ []) no_arguments ≡ none
unfolding parse_arguments
no_value = refl
