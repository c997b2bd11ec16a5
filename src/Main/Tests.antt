-- ===== src/Main/Tests.antt =====
-- crates/app/src/main.rs: a run of the program on one disk, and the next run.
use mathlib.Core.Option
use pfnc.Prelude.{
  ◌≡◌, ◌≢◌, refl, subst, Bool, true, false, Option, none, some, List, [], ◌∷◌, Str, str_eq, codes,
  arith,
}
use pfnc.Effect.{ok, pure, ok-injective}
use pfnc.Vfs.{VfsPath, remote}
use pfnc.Vfs.Interface.{Vfs}
use pfnc.Keys.{KeyCode, f_key}
use pfnc.Config.{Config, ConfigIo, PanelLocationConfig, default_config, save_to}
use pfnc.Config.Tests.{file_of, file_of-IsFaithful, save_to-file_of, save_to-file_of_state}
use pfnc.Fixtures.{World, disk, test_vfs, fresh_world}
use pfnc.Panel
use pfnc.Panel.{PanelState}
use pfnc.App.Tasks.{Threads}
use pfnc.App.{App, browsing}
use pfnc.App.Modes.{HasRoomMode}
use pfnc.App.Tests.{app_in, test_libs, test_threads, disk_short}
use pfnc.App.Editor.Tests.{test_io}
use pfnc.App.Opens.{OpensShort, ListsShort}
use pfnc.App.Session.{start_at, sync_session_into_config}
use pfnc.Main.{
  Running, Turn, Ready, Frame, InputEvent, Polled, begin, start_program, end_program, poll, turn,
  render, panicked, returned,
}
use pfnc.Main.Steps.{Runs, IsTurn, starts, then_happens, polls}
use pfnc.Main.Drawing.{Drawn}
use pfnc.Main.Safety.{turn_safe}
use pfnc.Main.Ends.{turn-quits}
use pfnc.Main.Restore.{Resumes, start_program-end_program}

abbrev no_settings : ConfigIo World
no_settings = record {
  exists = λ _ w. (false, w);
  read_to_string = λ _. pure [];
  create_dir_all = λ _. pure tt;
  write = λ _ _. pure tt;
  parent = λ _. none;
  from_str = λ _. ok default_config;
  to_string_pretty = λ _. ok [];
}

abbrev first_keymap : List (Str × KeyCode)
first_keymap =
    (codes "quit", f_key 10)
    ∷ (codes "help", f_key 1)
    ∷ (codes "edit", f_key 3)
    ∷ (codes "sync", f_key 4)
    ∷ (codes "copy", f_key 5)
    ∷ (codes "move", f_key 6)
    ∷ (codes "mkdir", f_key 7)
    ∷ (codes "delete", f_key 8)
    ∷ (codes "connect", f_key 9)
    ∷ []

abbrev is_d : VfsPath → Bool
is_d p = str_eq p (codes "/d")

abbrev first_run : Running World
first_run =
    begin (
      start_at test_vfs (fresh_world [] false) default_config (codes "/d") (codes "/d")
        first_keymap)

test_starts :
    start_program no_settings (codes "/c") is_d test_vfs (some (codes "/d")) (fresh_world [] false)
    ≡ some first_run
unfolding start_program Option.bind
test_starts = refl

test_vfs-ListsShort : ListsShort test_vfs
test_vfs-ListsShort = disk_short

-- Whatever is opened is the disk.
abbrev main_threads : Threads World (Unit {0})
main_threads = record test_threads {
  connect = λ _. pure test_vfs;
  open_archive = λ _ _ _. pure test_vfs;
}

main_threads-OpensShort : OpensShort main_threads
main_threads-OpensShort = record {
  profiles = λ _ _ _ e. subst ListsShort (ok-injective e) test_vfs-ListsShort;
  archives = λ _ _ _ _ _ e. subst ListsShort (ok-injective e) test_vfs-ListsShort;
}

abbrev after_f8 : Running World
after_f8 = poll false (Polled.ready (InputEvent.key_press (f_key 8))) first_run

abbrev next_turn : Ready → Turn
next_turn r = record {
  left_height = 20;
  right_height = 20;
  dialog_x = 5;
  draw_error = none;
  starts_thread = true;
  is_ready = r;
}

next_turn-IsTurn : (r : Ready) → IsTurn (next_turn r)
next_turn-IsTurn r = record { left_small = omega arith; right_small = omega arith }

pressed_f8 : Runs test_libs test_io (λ _. none) 3 3 main_threads first_run after_f8
pressed_f8 = then_happens starts (polls false (Polled.ready (InputEvent.key_press (f_key 8))))

still_browsing : HasRoomMode after_f8.app.mode
unfolding poll start_at
still_browsing = tt

turn_safe_example :
    (turn test_libs test_io (λ _. none) 3 3 (next_turn Ready.input) after_f8 ≢ panicked)
    × (f : Frame) × (after : App World) × (render test_libs 20 20 5 after_f8.app ≡ some (f, after))
    × Drawn test_libs 20 20 5 after_f8.app f after
turn_safe_example =
    turn_safe test_libs test_io (λ _. none) 3 3 main_threads main_threads-OpensShort no_settings
      (codes "/c") is_d test_vfs (some (codes "/d")) (fresh_world [] false) first_run after_f8
      (next_turn Ready.input) test_vfs-ListsShort test_starts pressed_f8
      (next_turn-IsTurn Ready.input) still_browsing
      (record { thread_starts = refl; terminal_returns = λ w h. cc })

abbrev drawn_before : PanelState
drawn_before = record ((app_in browsing).left) { viewport_height = 18 }

abbrev quitting : App World
quitting = record (app_in browsing) {
  should_quit = true;
  left = drawn_before;
  right = drawn_before;
}

quits :
    turn test_libs test_io (λ _. none) 3 3 (next_turn Ready.tick) (begin quitting)
    ≡ returned (ok tt) (begin quitting)
unfolding turn
quits = refl

turn-quits_example : quitting.should_quit ≡ true
turn-quits_example =
    turn-quits test_libs test_io (λ _. none) 3 3 main_threads quitting (begin quitting)
      (begin quitting) (next_turn Ready.tick) starts quits

-- The settings after a run whose left panel is in `/d` and whose right one is on another host.
abbrev kept : Config
kept = record default_config {
  session = record {
    left = some (record { location = PanelLocationConfig.local; cwd = codes "/d" });
    right = none;
  };
}

-- A disk of one file, the settings; no directory of it can be listed.
abbrev settings_disk : Vfs (Option Str)
settings_disk =
    disk (record { read = λ _. pure [] }) (record { write = λ bytes. pure 0; flush = pure tt })

abbrev at_exit : App (Option Str)
at_exit = record (start_at settings_disk none kept (codes "/d") (codes "/d") first_keymap) {
  right = Panel.new (remote (codes "nas")) (codes "/srv");
}

abbrev second_run : Running (Option Str)
second_run =
    begin
      (start_at settings_disk (some (codes "saved")) kept (codes "/d") (codes "/home") first_keymap)

settings_kept : (sync_session_into_config at_exit).config ≡ kept
unfolding sync_session_into_config start_at Panel.new
settings_kept = refl

settings_saved :
    (save_to (file_of kept) (codes "/c") (sync_session_into_config at_exit).config at_exit.world).0
    ≡ ok tt
settings_saved = rw settings_kept (save_to-file_of kept (codes "/c") at_exit.world)

finish_saved : end_program (file_of kept) (codes "/c") at_exit ≡ some (codes "saved")
unfolding end_program start_at Panel.new
finish_saved = rw settings_kept (save_to-file_of_state kept (codes "/c") at_exit.world)

starts_again :
    start_program
      (file_of kept)
      (codes "/c")
      is_d
      settings_disk
      (some (codes "/home"))
      (end_program (file_of kept) (codes "/c") at_exit)
    ≡ some second_run
unfolding start_program Option.bind
starts_again = rw finish_saved refl

start_program-end_program_example : Resumes is_d (codes "/home") at_exit second_run.app
start_program-end_program_example =
    start_program-end_program (file_of kept) (codes "/c") is_d settings_disk (some (codes "/home"))
      at_exit second_run (file_of-IsFaithful kept) settings_saved starts_again
