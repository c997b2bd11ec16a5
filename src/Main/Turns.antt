-- ===== src/Main/Turns.antt =====
-- crates/app/src/main.rs: one turn of the loop, and of the input thread.
use mathlib.Core.List.{reverse}
use pfnc.Job.Manager.{JobEvent}
use pfnc.Prelude.{
  ℕ, ◌-◌, ◌≡◌, ◌≢◌, true, false, Bool, Option, none, some, List, [], ◌∷◌, ◌++◌, Str, codes, arith,
  get_elem?, ◌&&◌, not, ◌==◌, if◌then◌else◌,
}
use pfnc.Effect.{ok, err}
use pfnc.Vfs.{VfsPath}
use pfnc.Panel.{sync_viewport}
use pfnc.App.{App, Libs, EditTarget}
use pfnc.App.Dispatch.{handle_key}
use pfnc.App.Events.{handle_job_event}
use mathlib.Core.Option
use pfnc.App.Editor.{EditorIo, edit_file}
use pfnc.App.Frame.{Outcome, chosen}
use pfnc.App.Frame.Edits.{Lands, edit_file_keeps}
use pfnc.App.Panels.{IsSound, cursor_rules, handle_key-IsSound, handle_job_event-IsSound}
use pfnc.App.Whole.{IsInOrder, order_rules, handle_key-IsInOrder, handle_job_event-IsInOrder}
use pfnc.App.Modes.{IsWholeMode, HasRoomMode}
use pfnc.Main.{
  Polled, Running, Turn, Next, goes_on, returned, panicked, blocked, Ready, Frame, edit_requested,
  InputEvent, handle_input, with_thread, after_key, after_edit, after_job, take_input, take_job,
  select, after_draw, turn, poll, take_polled,
}
use pfnc.Main.Steps.{IsTurn}
use pfnc.Main.Drawing.{render-Drawn, synced-IsSound}

-- Both panels have their cursor in their listing, and the dialog is in order.
pub record IsSafe {W : Type 0} (app : App W) : Type 0 where
  pub is_sound : IsSound app
  pub is_in_order : IsWholeMode app.mode

-- What the machine gives: the thread of a new job, and the terminal after an editor.
pub record Grants {W : Type 0} (io : EditorIo W) (starts : Bool) : Type 0 where
  pub thread_starts : starts ≡ true
  pub terminal_returns : (w : W) → io.init w ≢ none

-- What a turn leads to: to a safe state, and to a panic only if the machine refused something.
abbrev pub Leads : {W : Type 0} → EditorIo W → Bool → Next W → Type 0
Leads io starts (goes_on s) = IsSafe s.app
Leads io starts (returned _ s) = IsSafe s.app
Leads io starts panicked = Grants io starts → ⊥
Leads io starts blocked = Unit {0}

module _ {W : Type 0} where
  outcome_some :
      (P : App W → Type 0) (o : Option (App W)) {app : App W} → o ≡ some app → Outcome P o → P app
  outcome_some P o e p = rw e at p

  polled-IsSafe :
      (polled : Polled) (s : Running W) → IsSafe s.app → IsSafe (take_polled polled s).app
  polled-IsSafe Polled.nothing s safe = safe
  polled-IsSafe (Polled.ready event) s safe = safe
  polled-IsSafe (Polled.poll_error e) s safe = safe

  pub poll-IsSafe :
      (is_paused : Bool) (polled : Polled) (s : Running W)
      → IsSafe s.app
      → IsSafe (poll is_paused polled s).app
  unfolding poll
  poll-IsSafe is_paused polled s safe =
      chosen (λ (s' : Running W). IsSafe s'.app) (s.is_listening && not is_paused) {y = s}
        (polled-IsSafe polled s safe) safe

module _ {W Float : Type 0} (libs : Libs Float) where
  module _ (io : EditorIo W) (extension : VfsPath → Option Str) (retries rounds : ℕ) where
    edited-Leads :
        (starts : Bool) (o : Option (App W)) (s : Running W)
        → Lands io libs.paths extension libs.describe retries rounds ⊥ IsSound cursor_rules o
        → Lands io libs.paths extension libs.describe retries rounds Unit IsInOrder order_rules o
        → Leads io starts (after_edit libs io extension retries rounds o s)
    edited-Leads starts none s sound whole = λ g. sound g.terminal_returns
    edited-Leads starts (some app) s sound whole = record { is_sound = sound; is_in_order = whole }

    edit-Leads :
        (starts : Bool) (o : Option EditTarget) (app : App W) (s : Running W)
        → IsSafe app
        → Leads io starts (
            after_edit libs io extension retries rounds
              (edit_requested libs io extension retries rounds o app)
              s)
    unfolding edit_requested
    edit-Leads starts none app s safe = safe
    edit-Leads starts (some target) app s safe =
        edited-Leads starts
          (edit_file io libs.paths extension libs.describe retries rounds target
            (record app { edit_request = none }))
          s
          (edit_file_keeps io libs.paths extension libs.describe retries rounds ⊥ IsSound
            cursor_rules target (record app { edit_request = none }) safe.is_sound)
          (edit_file_keeps io libs.paths extension libs.describe retries rounds Unit IsInOrder
            order_rules target (record app { edit_request = none }) safe.is_in_order)

    after_key-Leads :
        (starts : Bool) (before app : App W) (s : Running W)
        → IsSafe app
        → Leads io starts
            (after_key libs io extension retries rounds (with_thread starts before app) s)
    unfolding after_key
    after_key-Leads true before app s safe = edit-Leads true app.edit_request app s safe
    after_key-Leads false before app s safe =
        elim (app.jobs.next_id == before.jobs.next_id)
          as (λ b.
            Leads io false
              (after_key libs io extension retries rounds (if b then some app else none) s)) [
                | true ↦ edit-Leads false app.edit_request app s safe
                | false ↦ λ g. let never = g.thread_starts in cc
              ]

    after_job-Leads :
        (starts : Bool) (before app : App W) (s : Running W)
        → IsSafe app
        → Leads io starts
            (after_job libs io extension retries rounds (with_thread starts before app) s)
    after_job-Leads true before app s safe = safe
    after_job-Leads false before app s safe =
        elim (app.jobs.next_id == before.jobs.next_id)
          as (λ b.
            Leads io false
              (after_job libs io extension retries rounds (if b then some app else none) s)) [
                | true ↦ safe
                | false ↦ λ g. let never = g.thread_starts in cc
              ]

    handled-Leads :
        (starts : Bool) (event : InputEvent) (s : Running W)
        → IsSafe s.app
        → HasRoomMode s.app.mode
        → Leads io starts (handle_input libs io extension retries rounds starts event s)
    unfolding handle_input Option.bind
    handled-Leads starts (InputEvent.key_press key) s safe room =
        let (after, e, w) = handle_key-IsInOrder libs key s.app safe.is_in_order room in
        let sound =
          outcome_some IsSound (handle_key libs key s.app) e
            (handle_key-IsSound libs key s.app safe.is_sound) in
        rw e (after_key-Leads starts s.app after s (record { is_sound = sound; is_in_order = w }))
    handled-Leads starts InputEvent.other s safe room = safe
    handled-Leads starts (InputEvent.read_error e) s safe room = safe

    take_input-Leads :
        (starts : Bool) (inputs : List InputEvent) (s : Running W)
        → IsSafe s.app
        → HasRoomMode s.app.mode
        → Leads io starts (take_input libs io extension retries rounds starts inputs s)
    unfolding take_input
    take_input-Leads starts [] s safe room =
        elim s.is_listening
          as (λ b. Leads io starts (elim b [ true ↦ blocked | false ↦ returned (ok tt) s ])) [
            | true ↦ tt
            | false ↦ safe
          ]
    take_input-Leads starts (event ∷ rest) s safe room =
        handled-Leads starts event (record s { inputs = rest }) safe room

    take_job-Leads :
        (starts : Bool) (event : Option JobEvent) (s : Running W)
        → IsSafe s.app
        → Leads io starts (take_job libs io extension retries rounds starts event s)
    unfolding take_job
    take_job-Leads starts none s safe = tt
    take_job-Leads starts (some event) s safe =
        after_job-Leads starts s.app (handle_job_event libs event s.app) s (record {
          is_sound = handle_job_event-IsSound libs event s.app safe.is_sound;
          is_in_order = handle_job_event-IsInOrder libs event s.app safe.is_in_order;
        })

    select-Leads :
        (starts : Bool) (r : Ready) (s : Running W)
        → IsSafe s.app
        → HasRoomMode s.app.mode
        → Leads io starts (select libs io extension retries rounds starts r s)
    unfolding select
    select-Leads starts Ready.input s safe room = take_input-Leads starts s.inputs s safe room
    select-Leads starts Ready.job s safe room =
        take_job-Leads starts (get_elem? (reverse s.app.jobs.sent) s.heard) s safe
    select-Leads starts Ready.tick s safe room = safe

    after_draw-Leads :
        (t : Turn) (f : Frame) (app : App W) (s : Running W)
        → IsSafe app
        → HasRoomMode app.mode
        → Leads io t.starts_thread (after_draw libs io extension retries rounds t (some (f, app)) s)
    unfolding after_draw
    after_draw-Leads t f app s safe room = drawn t.draw_error app.should_quit
      where
        drawn :
            (e : Option Str) (quit : Bool)
            → Leads io t.starts_thread (elim e [
              | some text ↦
                  returned (err (codes "failed to draw frame: " ++ text)) (record s { app = app })
              | none ↦ elim quit [
                | true ↦ returned (ok tt) (record s { app = app })
                | false ↦
                    select libs io extension retries rounds t.starts_thread t.is_ready
                      (record s { app = app })
              ]
            ])
        drawn (some text) quit = safe
        drawn none true = safe
        drawn none false =
            select-Leads t.starts_thread t.is_ready (record s { app = app }) safe room

    pub turn-Leads :
        (t : Turn) (s : Running W)
        → IsTurn t
        → IsSafe s.app
        → HasRoomMode s.app.mode
        → Leads io t.starts_thread (turn libs io extension retries rounds t s)
    unfolding turn
    turn-Leads t s small safe room =
        let (f, app, e, d) =
          render-Drawn libs t.left_height t.right_height t.dialog_x s.app small.left_small
            small.right_small safe.is_sound in
        rw (e, d.only_scrolled)
          (after_draw-Leads t f
            (record (s.app) {
              left = sync_viewport (t.left_height - 2) s.app.left;
              right = sync_viewport (t.right_height - 2) s.app.right;
            })
            s
            (record {
              is_sound =
                  synced-IsSound (t.left_height - 2) (t.right_height - 2) s.app (omega arith)
                    (omega arith) safe.is_sound;
              is_in_order = safe.is_in_order;
            })
            room)

pub not_panicked :
    {W : Type 0} (io : EditorIo W) (starts : Bool) (n : Next W)
    → Grants io starts
    → Leads io starts n
    → n ≢ panicked
not_panicked io starts (goes_on s) g h = λ e. cc
not_panicked io starts (returned r s) g h = λ e. cc
not_panicked io starts panicked g h = absurd (h g)
not_panicked io starts blocked g h = λ e. cc
