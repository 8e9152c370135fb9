-- ===== src/Lib.antt =====
-- A machine that runs Symbian programs inside a sandbox: the C++ code of waterbox/, which carries
-- the emulator EKA2L1 with a clock, a filesystem, a screen, sound and a memory bus of its own, so
-- that a run is the same wherever it is made.
--
-- The parts, and the files that model them:
--
--   * Vclock: `virtual_clock` of waterbox/vclock.cpp, the machine's time, bought with
--     instructions.
--   * Run: `machine::run_for_us` of waterbox/machine.cpp, which calls the emulator's loop and its
--     timers until the clock reaches a target; its callback spends instructions on the clock of
--     Vclock.
--   * Memfs: `memory_file_system` of waterbox/memfs.cpp. Path splits and rewrites paths, Node is
--     the tree (`memory_node`), Types the state and its constructor, Resolve the walk from a path
--     to a node and the drives, File the methods of `memory_file`, Entries the operations on
--     entries, Directory the iterator `memory_directory`, Rpkg the packages that `mount_rpkg`
--     mounts. Reach has all of these as steps of one system. A pointer to a node is a `Place`: a
--     drive, and the keys on the way from its root; a write through a pointer is `update`.
--   * Bus: `resolve_user` and its page cache, `peek_user`, `read_user` and `poke_user` of
--     waterbox/machine.cpp, and the exports `PeekBus`, `ReadBus` and `PokeBus` of
--     waterbox/wbx-entry.cpp that call them.
--   * Apps: `remember_apps`, `launch_app` and `launch_installed_app` of waterbox/machine.cpp.
--   * Screen: `read_framebuffer` and `read_screen` of waterbox/machine.cpp with the colours'
--     orders.
--   * Audio: the streams and the sink of waterbox/audio.cpp.
--   * Graphics: the driver of waterbox/null-graphics.cpp.
--   * Keypad: `button_name` of waterbox/input.cpp and `machine::set_button`.
--   * Start: `parse_clock_start` of waterbox/wbx-entry.cpp.
--   * Phone: the machine whole, Run, Apps and Keypad over one state of the emulator, and a frame
--     of its time.
--   * Install: the installers of waterbox/machine.cpp, `put_file` and `install_ngage`; Card is
--     `install_card`, Blz `install_blz`, which runs frames of Phone. Files says what they assume
--     of the emulator's drives.
--   * Devices: `add_device_from_rom`, `set_device`, `boot` and `mount_host_drives` of
--     waterbox/machine.cpp. The RPKG's drive is a filesystem of Memfs; Languages reads a text on
--     it.
--   * Session: the globals and exports of waterbox/wbx-entry.cpp over all of these:
--     `FrameAdvance`, the exports between frames (Exports), and `Init` with the settings that it
--     reads (Init/Settings).
--   * Config: what the constructor of `machine` configures the emulator with, and its key table.
--   * GlContext: the contexts of OpenGL, Egl of waterbox/gl-egl.c for the native reference, and
--     Osmesa of waterbox/gl-osmesa.c for the sandbox.
--   * HostUi: the dialogs of waterbox/host-ui.cpp. Embedded: the tables of files in the binary.
--     GuestLibc: waterbox/guest-syscalls.cpp. Provision: waterbox/install-device.cpp. Savestate:
--     the buffer of waterbox/run-wbx.c that states are written to and read from.
--   * Harness: the two programs that run the machine and report of it. Native is
--     waterbox/run-native.cpp: its loop over the frames, Args its arguments, Prepare how it makes
--     the machine, installs to it and starts the application, Verify its `--verify`. Wbx is the
--     loop of waterbox/run-wbx.c over the frames of the sandboxed machine, which is Session behind
--     miniBox's host, with its `--rerecord`. Digest has the digests that both print; Keys and
--     Agree set the two side by side, and Native/Prepare/AsInit and CommandLine the making of the
--     machine and `Init`.
--   * Prelude holds what they share; Tests, Memfs/Tests, Session/Tests, Harness/Tests,
--     Config/Tests and GlContext/Tests run them at concrete inputs.
--
-- Numbers are natural numbers, with the wrap-around at 32 or 64 bits written out where the code
-- computes with sums or products that can pass it. A call that can throw, or do what C++ leaves
-- undefined, answers an `Outcome`. A lookup beyond the drives' arrays does not occur in the code,
-- and gives an empty node here.
--
-- What is not part of the repository is a parameter: EKA2L1's conversions, wildcard matcher,
-- memory and application list (`Platform`, `Bus.pages`, `AppList`, `Emulator`, `Panel`,
-- `Display`), the callbacks of the audio streams, the floating-point product of a sample and the
-- volume, `sscanf`; the whole of its state and of what its calls do to it (`Install.Emulator`,
-- `Phone.System`, `Devices.Manager`, `Session.Guest`), the files of the host and the project
-- (`Project`), miniBox's saving and loading of the machine (`Wbx.Box`), the calls of EGL and Mesa
-- (`Egl`, `Osmesa`), the emulator's scan codes (`Config.Upstream`), `atoi` and `strtol`
-- (`Args.Library`), and what the native reference finds about it (`Prepare.Surroundings`). What
-- the theorems assume of them stands among the theorems' hypotheses.
--
-- Loops run on fuel. `run_from` (Run) has as much as it needs when it is given the length of the
-- slice in microseconds times the clock's rate, and `read_entries` (Memfs/Rpkg) when it is given
-- the length of the package, which is what `mount_rpkg` gives it; `read_from` (Bus) takes the
-- length of the run, since a round reads a byte at least. The frames of `install_blz`
-- (Install/Blz) and of `FrameAdvance` (Session) each give theirs to `run_from`, and so do those of
-- both programs of Harness; `verify_from` (Harness/Native/Verify) takes the length of the file,
-- since a piece has a byte at least.
--
-- Not modelled: the start of the emulator and of its drivers by `machine` (`startup`,
-- `start_graphics`), the context that waterbox/gl-context.cpp lends it, the generated tables and
-- the build. Of waterbox/run-native.cpp: what it prints of windows, threads and applications,
-- `--print-rom-path`, `--list-apps`, `--probe`, `--extract-to`, `--run`, the TGA, `--sleep-ms` and
-- `--host-clock`; of waterbox/run-wbx.c: its arguments and its mounts. Constant answers of the
-- interfaces (`close`, `rom_address`, `get_raw_path` and the like) and exports that answer a
-- constant or a global are left out, and so is the address space that `launch_app` notes.
mod Prelude
pub mod Vclock
pub mod Memfs
pub mod Bus
pub mod Apps
pub mod Config
pub mod GlContext
pub mod Run
pub mod Screen
pub mod Audio
pub mod Graphics
pub mod Start
pub mod Keypad
pub mod Devices
pub mod Embedded
pub mod GuestLibc
pub mod Harness
pub mod HostUi
pub mod Install
pub mod Phone
pub mod Provision
pub mod Savestate
pub mod Session
mod Tests
