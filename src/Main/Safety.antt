-- ===== src/Main/Safety.antt =====
-- crates/app/src/main.rs: what holds in every state that the program reaches.

use pfnc.Prelude.{ℕ, subst, Option, Str, ◌≡◌, ◌≢◌, some, Bool}
use pfnc.Vfs.{VfsPath}
use pfnc.App.{Libs, App}
use pfnc.App.Editor.{EditorIo}
use pfnc.App.Tasks.{Threads}
use pfnc.App.Opens.{OpensShort, run_task-AreShort, ListsShort}
use pfnc.App.SyncFlow.{shared_of}
use pfnc.Main.{Running, Turn, Frame, start_program, panicked, turn, render}
use pfnc.Main.Steps.{
  Happens, Runs, turns, polls, reports, works, crashes, elapses, starts, then_happens, end_task,
  IsTurn,
}
use pfnc.Main.Turns.{IsSafe, Leads, Grants, turn-Leads, poll-IsSafe, not_panicked}
use pfnc.Vfs.Interface.{Vfs}
use pfnc.Config.{ConfigIo}
use pfnc.App.Modes.{HasRoomMode}
use pfnc.Main.Drawing.{Drawn, render-Drawn}
use pfnc.Main.Start.{start_program-IsSafe}

module _ {W Float : Type 0} (libs : Libs Float) where
  module _ (io : EditorIo W) (extension : VfsPath → Option Str) (retries rounds : ℕ) where
    module _ {ConnectError : Type 0} (threads : Threads W ConnectError)
        (opens : OpensShort threads) where
      Happens-IsSafe :
          {s s' : Running W}
          → Happens libs io extension retries rounds threads s s'
          → IsSafe s.app
          → IsSafe s'.app
      unfolding end_task
      Happens-IsSafe {s} (turns t small room e) safe =
          subst (Leads io t.starts_thread) e
            (turn-Leads libs io extension retries rounds t s small safe room)
      Happens-IsSafe {s} (polls is_paused polled) safe = poll-IsSafe is_paused polled s safe
      Happens-IsSafe (reports id progress alive) safe = record {
        is_sound = safe.is_sound;
        is_in_order = safe.is_in_order;
      }
      Happens-IsSafe {s} (works id task ending alive found e) safe =
          let short = run_task-AreShort threads opens task (shared_of s.app) safe.is_sound.2 in
          record {
            is_sound = (safe.is_sound.0, safe.is_sound.1, short);
            is_in_order = safe.is_in_order;
          }
      Happens-IsSafe (crashes id w alive) safe = record {
        is_sound = safe.is_sound;
        is_in_order = safe.is_in_order;
      }
      Happens-IsSafe (elapses w) safe = record {
        is_sound = safe.is_sound;
        is_in_order = safe.is_in_order;
      }

      pub Runs-IsSafe :
          {first s : Running W}
          → IsSafe first.app
          → Runs libs io extension retries rounds threads first s
          → IsSafe s.app
      Runs-IsSafe safe starts = safe
      Runs-IsSafe safe (then_happens before now) = Happens-IsSafe now (Runs-IsSafe safe before)

      -- From its start on, whatever the user, the threads of the jobs and the rest of the world do, in any order,
      -- the program does not panic in its loop while memory holds one more character in every text of the open
      -- dialog and the machine grants what a turn asks for: a thread for a new job, and the terminal after an
      -- editor. In every state that it reaches, the next turn does not panic; its frame draws both panels,
      -- with the entry under the cursor where there is room for a row, and the dialog inside of its layout.
      -- The backends are taken to return from each call, none of which panics itself, and to list no more
      -- entries than a `Vec` holds; sums wrap around, as they do in a release build.
      pub turn_safe :
          (cfg : ConfigIo W) (path : VfsPath) (is_dir : VfsPath → Bool) (local_vfs : Vfs W)
          (home : Option VfsPath) (w : W) (first s : Running W) (t : Turn)
          → ListsShort local_vfs
          → start_program cfg path is_dir local_vfs home w ≡ some first
          → Runs libs io extension retries rounds threads first s
          → IsTurn t
          → HasRoomMode s.app.mode
          → Grants io t.starts_thread
          → (turn libs io extension retries rounds t s ≢ panicked)
            × (f : Frame) × (after : App W) × (render libs t.left_height t.right_height t.dialog_x
                  s.app
                ≡ some (f, after))
            × Drawn libs t.left_height t.right_height t.dialog_x s.app f after
      turn_safe cfg path is_dir local_vfs home w first s t lists e runs small room grants =
          let safe =
            Runs-IsSafe (start_program-IsSafe local_vfs lists cfg path is_dir home w first e)
              runs in
          let (f, after, drawn, d) =
            render-Drawn libs t.left_height t.right_height t.dialog_x s.app small.left_small
              small.right_small safe.is_sound in
          (
            not_panicked io t.starts_thread (turn libs io extension retries rounds t s) grants
                (turn-Leads libs io extension retries rounds t s small safe room),
            f,
            after,
            drawn,
            d,
          )
