-- ===== src/Main.antt =====
-- crates/app/src/main.rs and ui.rs: the input thread, the loop that draws and handles what `select` gives, and
-- what happens to the settings before and after. The height of the areas is what the layout gives them, and the
-- lines of text that ratatui shows are `Frame`.
pub mod Steps
mod Drawing
mod Turns
mod Start
mod Safety
mod Ends
mod Restore
mod Tests
use mathlib.Core.Option
use mathlib.Core.List.{reverse}
use pfnc.Prelude.{
  ℕ, suc, ◌+◌, Bool, true, false, Option, none, some, List, [], ◌∷◌, ◌++◌, Str, codes, get_elem?,
  not, ◌&&◌, ◌||◌, ◌==◌, if◌then◌else◌, length, min, ltb, ◌%◌, ◌^◌,
}
use pfnc.Prelude.Partial.{◌>>=◌}
use pfnc.Effect.{Result, ok, err, out_of_fuel}
use pfnc.Vfs.{VfsPath}
use pfnc.Vfs.Interface.{Vfs}
use pfnc.Keys.{KeyCode}
use pfnc.Panel.{PanelState}
use pfnc.Job.Manager.{JobEvent}
use pfnc.Config.{Config, ConfigIo, ConfigError, load_from, save_to, default_config}
use pfnc.Tui.{DrawnPanel, render_panel}
use pfnc.Connect.{ConnectForm, ConnectField, SavedProfileSummary}
use pfnc.App.{App, Libs, Mode, text_input, connecting, PaneSide, left_side, right_side, EditTarget}
use pfnc.App.Dispatch.{handle_key}
use pfnc.App.Events.{handle_job_event}
use pfnc.App.Editor.{EditorIo, edit_file}
use pfnc.App.Session.{new_with_config, sync_session_into_config}

-- What the input thread sends; `other` is an event that is not the press of a key.
pub data InputEvent : Type 0 where
  key_press : KeyCode → InputEvent
  other : InputEvent
  read_error : Str → InputEvent

-- What `event::poll` gives, with what `event::read` gives where there is something.
pub data Polled : Type 0 where
  nothing : Polled
  ready : InputEvent → Polled
  poll_error : Str → Polled

-- The program under way. `inputs` is the channel of the input thread, the oldest first; `heard` is how many of
-- the events of the jobs were received.
pub record Running (W : Type 0) : Type 0 where
  pub app : App W
  pub inputs : List InputEvent
  pub is_listening : Bool
  pub heard : ℕ

abbrev pub begin : {W : Type 0} → App W → Running W
begin app = record { app = app; inputs = []; is_listening = true; heard = 0 }

abbrev pub send : {W : Type 0} → InputEvent → Bool → Running W → Running W
send event alive s = record s { inputs = s.inputs ++ (event ∷ []); is_listening = alive }

abbrev pub stays_alive : InputEvent → Bool
stays_alive (read_error _) = false
stays_alive _ = true

abbrev pub take_polled : {W : Type 0} → Polled → Running W → Running W
take_polled nothing s = s
take_polled (ready event) s = send event (stays_alive event) s
take_polled (poll_error e) s = send (read_error e) false s

-- One turn of the input thread, which waits while the gate is closed and ends after an error.
unfoldable pub poll : {W : Type 0} → Bool → Polled → Running W → Running W
poll is_paused polled s = if s.is_listening && not is_paused then take_polled polled s else s

abbrev pub is_side : PaneSide → PaneSide → Bool
is_side left_side left_side = true
is_side right_side right_side = true
is_side _ _ = false

-- What `ui::render` shows: both panels, the status line, and the dialog over them, with the column of its cursor.
pub record Frame : Type 0 where
  pub left : DrawnPanel
  pub right : DrawnPanel
  pub status : Str
  pub mode : Mode
  pub cursor : Option ℕ

-- What a turn of the loop meets: the heights of the two areas, the first column inside of the dialog, whether the
-- terminal takes the frame, whether the operating system starts the thread of a new job, and what `select` finds ready.
pub data Ready : Type 0 where
  input job tick : Ready

pub record Turn : Type 0 where
  pub left_height : ℕ
  pub right_height : ℕ
  pub dialog_x : ℕ
  pub draw_error : Option Str
  pub starts_thread : Bool
  pub is_ready : Ready

-- `blocked` is a choice that `select` does not make, since nothing is there.
pub data Next (W : Type 0) : Type 0 where
  goes_on : Running W → Next W
  returned : Result Str (Unit {0}) → Running W → Next W
  panicked blocked : Next W

abbrev pub error_rows : Option Str → ℕ
error_rows none = 0
error_rows (some _) = 1

-- A blank row, and the first nine profiles.
abbrev pub saved_rows : List SavedProfileSummary → ℕ
saved_rows [] = 0
saved_rows (p ∷ ps) = 1 + min (length (p ∷ ps)) 9

-- The rows that `render_connect` lays out: as many as it has constraints.
abbrev pub laid_out : ConnectForm → ℕ
laid_out form = length form.fields + error_rows form.error + saved_rows form.saved + 1

-- `row` at its end, the last and largest index that it uses.
abbrev pub hint_row : ConnectForm → ℕ
hint_row form = length form.fields + error_rows form.error + saved_rows form.saved

-- `x + … + cursor as u16`, a sum of 16 bits.
abbrev pub column : ℕ → ℕ → ℕ
column x cursor = (x + cursor % 2 ^ 16) % 2 ^ 16

abbrev pub field_column : ℕ → Option ConnectField → Option ℕ
field_column x none = none
field_column x (some field) = some (column (x + 9) field.text.cursor)

-- What the drawing of the dialog does besides showing it: it takes rows of its layout, and puts the cursor; a row that
-- the layout does not have is a panic.
unfoldable pub draw_dialog : ℕ → Mode → Option (Option ℕ)
draw_dialog x (text_input prompt) = some (some (column x prompt.text.cursor))
draw_dialog x (connecting form) =
    if ltb (hint_row form) (laid_out form)
    then some (field_column x (get_elem? form.fields form.focus))
    else none
draw_dialog x _ = some none

-- The `expect` behind `thread::Builder::spawn`: a new job panics when its thread is not started.
abbrev pub with_thread : {W : Type 0} → Bool → App W → App W → Option (App W)
with_thread starts before after =
    if starts || after.jobs.next_id == before.jobs.next_id then some after else none

module _ {W Float : Type 0} (libs : Libs Float) where
  unfoldable pub render : ℕ → ℕ → ℕ → App W → Option (Frame × App W)
  unfolding render_panel draw_dialog
  render left_height right_height dialog_x app = do
    (left, left_panel) ← render_panel libs left_height (is_side app.active left_side) app.left
    (right, right_panel) ← render_panel libs right_height (is_side app.active right_side) app.right
    cursor ← draw_dialog dialog_x app.mode
    some (
      record {
        left = left;
        right = right;
        status = Option.get_or app.status [];
        mode = app.mode;
        cursor = cursor;
      },
      record app { left = left_panel; right = right_panel },
    )

  module _ (io : EditorIo W) (extension : VfsPath → Option Str) (retries rounds : ℕ) where
    -- `if let Some(target) = app.edit_request.take()`
    unfoldable pub edit_requested : Option EditTarget → App W → Option (App W)
    unfolding edit_file
    edit_requested none app = some app
    edit_requested (some target) app =
        edit_file io libs.paths extension libs.describe retries rounds target
          (record app { edit_request = none })

    abbrev pub after_edit : Option (App W) → Running W → Next W
    after_edit none s = panicked
    after_edit (some app) s = goes_on (record s { app = app })

    unfoldable pub after_key : Option (App W) → Running W → Next W
    unfolding edit_requested
    after_key none s = panicked
    after_key (some app) s = after_edit (edit_requested app.edit_request app) s

    unfoldable pub handle_input : Bool → InputEvent → Running W → Next W
    unfolding handle_key after_key
    handle_input starts (key_press key) s =
        after_key (Option.bind (handle_key libs key s.app) (with_thread starts s.app)) s
    handle_input starts other s = goes_on s
    handle_input starts (read_error e) s = returned (err (codes "input read error: " ++ e)) s

    -- With no event left, the channel is closed if the thread has ended.
    unfoldable pub take_input : Bool → List InputEvent → Running W → Next W
    unfolding handle_input
    take_input starts [] s = elim s.is_listening [ true ↦ blocked | false ↦ returned (ok tt) s ]
    take_input starts (event ∷ rest) s = handle_input starts event (record s { inputs = rest })

    abbrev pub after_job : Option (App W) → Running W → Next W
    after_job none s = panicked
    after_job (some app) s = goes_on (record s { app = app; heard = suc s.heard })

    unfoldable pub take_job : Bool → Option JobEvent → Running W → Next W
    unfolding handle_job_event
    take_job starts none s = blocked
    take_job starts (some event) s =
        after_job (with_thread starts s.app (handle_job_event libs event s.app)) s

    unfoldable pub select : Bool → Ready → Running W → Next W
    unfolding take_input take_job
    select starts input s = take_input starts s.inputs s
    select starts job s = take_job starts (get_elem? (reverse s.app.jobs.sent) s.heard) s
    select starts tick s = goes_on s

    unfoldable pub after_draw : Turn → Option (Frame × App W) → Running W → Next W
    unfolding select
    after_draw t none s = panicked
    after_draw t (some (frame, app)) s = elim t.draw_error [
      | some e ↦ returned (err (codes "failed to draw frame: " ++ e)) (record s { app = app })
      | none ↦ elim app.should_quit [
        | true ↦ returned (ok tt) (record s { app = app })
        | false ↦ select t.starts_thread t.is_ready (record s { app = app })
      ]
    ]

    -- One turn of the loop of `run`.
    unfoldable pub turn : Turn → Running W → Next W
    unfolding render after_draw
    turn t s = after_draw t (render t.left_height t.right_height t.dialog_x s.app) s

    abbrev pub while_on : (Running W → Next W) → Next W → Next W
    while_on f (goes_on s) = f s
    while_on f n = n

    -- `run`, over the turns that it makes.
    unfoldable pub run : List Turn → Running W → Next W
    unfolding turn
    run [] s = goes_on s
    run (t ∷ ts) s = while_on (run ts) (turn t s)

abbrev pub or_default : {W : Type 0} → Result ConfigError Config × W → Config × W
or_default (ok c, w) = (c, w)
or_default (err e, w) = (default_config, w)
or_default (out_of_fuel, w) = (default_config, w)

module _ {W : Type 0} (io : ConfigIo W) (path : VfsPath) where
  -- `main` before `run`; `home` is `HOME`, and `/` without it.
  unfoldable pub start_program : (VfsPath → Bool) → Vfs W → Option VfsPath → W → Option (Running W)
  unfolding load_from new_with_config
  start_program is_dir local_vfs home w =
      let (config, w') = or_default (load_from io path w) in
      Option.map begin (new_with_config is_dir local_vfs w' config (Option.get_or home (codes "/")))

  -- `main` after `run`: an error of the file is only logged.
  unfoldable pub end_program : App W → W
  unfolding save_to sync_session_into_config
  end_program app =
      let app' = sync_session_into_config app in (save_to io path app'.config app'.world).1
