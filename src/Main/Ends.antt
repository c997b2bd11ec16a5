-- ===== src/Main/Ends.antt =====
-- crates/app/src/main.rs: how the loop of `run` ends.
use mathlib.Core.List.{reverse}
use pfnc.Prelude.{
  ℕ, ◌≡◌, subst, true, false, Bool, Option, none, some, List, [], ◌∷◌, ◌++◌, Str, codes, inl, inr,
  Bool-cases, get_elem?, ◌&&◌, not,
}
use pfnc.Effect.{ok, err, out_of_fuel}
use pfnc.Vfs.{VfsPath}
use pfnc.App.{App, Libs}
use pfnc.App.Dispatch.{handle_key}
use pfnc.App.Events.{handle_job_event}
use mathlib.Core.Option
use pfnc.App.Editor.{EditorIo}
use pfnc.App.Tasks.{Threads}
use pfnc.App.Frame.{chosen}
use pfnc.Job.Manager.{JobEvent}
use pfnc.Main.{
  Running, Turn, Next, goes_on, returned, panicked, blocked, Ready, Frame, InputEvent, Polled,
  begin, take_polled, poll, handle_input, after_key, after_edit, after_job, with_thread, take_input,
  take_job, select, after_draw, turn, render,
}
use pfnc.Main.Steps.{Runs, turns, polls, reports, works, crashes, elapses, starts, then_happens}

abbrev IsError : InputEvent → Type 0
IsError (InputEvent.read_error _) = Unit {0}
IsError (InputEvent.key_press _) = ⊥
IsError InputEvent.other = ⊥

abbrev EndsInError : List InputEvent → Type 0
EndsInError [] = ⊥
EndsInError (e ∷ []) = IsError e
EndsInError (e ∷ f ∷ es) = EndsInError (f ∷ es)

-- When the input thread has ended, its last event is the error, and it is still to be taken.
abbrev Closes : {W : Type 0} → Running W → Type 0
Closes s = s.is_listening ≡ false → EndsInError s.inputs

snoc-EndsInError :
    (es : List InputEvent) (e : Str) → EndsInError (es ++ (InputEvent.read_error e ∷ []))
snoc-EndsInError [] e = tt
snoc-EndsInError (x ∷ []) e = tt
snoc-EndsInError (x ∷ y ∷ es) e = snoc-EndsInError (y ∷ es) e

-- A turn that goes on leaves the error where it is, and one that ends well was told to quit.
abbrev EndsWell : {W : Type 0} → Next W → Type 0
EndsWell (goes_on s) = Closes s
EndsWell (returned (ok _) s) = s.app.should_quit ≡ true
EndsWell (returned (err _) s) = Unit {0}
EndsWell (returned out_of_fuel s) = Unit {0}
EndsWell panicked = Unit {0}
EndsWell blocked = Unit {0}

module _ {W : Type 0} where
  polled-Closes : (polled : Polled) (s : Running W) → Closes s → Closes (take_polled polled s)
  polled-Closes Polled.nothing s c = c
  polled-Closes (Polled.ready (InputEvent.key_press _)) s c = λ h. cc
  polled-Closes (Polled.ready InputEvent.other) s c = λ h. cc
  polled-Closes (Polled.ready (InputEvent.read_error e)) s c = λ _. snoc-EndsInError s.inputs e
  polled-Closes (Polled.poll_error e) s c = λ _. snoc-EndsInError s.inputs e

  poll-Closes :
      (is_paused : Bool) (polled : Polled) (s : Running W)
      → Closes s
      → Closes (poll is_paused polled s)
  unfolding poll
  poll-Closes is_paused polled s c =
      chosen (λ (r : Running W). Closes r) (s.is_listening && not is_paused) {y = s}
        (polled-Closes polled s c) c

module _ {W Float : Type 0} (libs : Libs Float) (io : EditorIo W) (extension : VfsPath → Option Str)
    (retries rounds : ℕ) where
  after_edit-EndsWell :
      (o : Option (App W)) (s : Running W)
      → Closes s
      → EndsWell (after_edit libs io extension retries rounds o s)
  after_edit-EndsWell none s c = tt
  after_edit-EndsWell (some app) s c = c

  after_key-EndsWell :
      (o : Option (App W)) (s : Running W)
      → Closes s
      → EndsWell (after_key libs io extension retries rounds o s)
  unfolding after_key
  after_key-EndsWell none s c = tt
  after_key-EndsWell (some app) s c = after_edit-EndsWell _ s c

  take_input-EndsWell :
      (granted : Bool) (inputs : List InputEvent) (s : Running W)
      → (s.is_listening ≡ false → EndsInError inputs)
      → EndsWell (take_input libs io extension retries rounds granted inputs s)
  unfolding take_input handle_input
  take_input-EndsWell granted [] s c = elim (Bool-cases s.is_listening) [
    | inl alive ↦ rw alive tt
    | inr ended ↦ absurd (c ended)
  ]
  take_input-EndsWell granted (InputEvent.read_error e ∷ rest) s c = tt
  take_input-EndsWell granted (InputEvent.other ∷ []) s c = λ ended. absurd (c ended)
  take_input-EndsWell granted (InputEvent.other ∷ f ∷ rest) s c = c
  take_input-EndsWell granted (InputEvent.key_press key ∷ []) s c =
      after_key-EndsWell (Option.bind (handle_key libs key s.app) (with_thread granted s.app))
        (record s { inputs = [] }) (λ ended. absurd (c ended))
  take_input-EndsWell granted (InputEvent.key_press key ∷ f ∷ rest) s c =
      after_key-EndsWell (Option.bind (handle_key libs key s.app) (with_thread granted s.app))
        (record s { inputs = f ∷ rest }) c

  after_job-EndsWell :
      (o : Option (App W)) (s : Running W)
      → Closes s
      → EndsWell (after_job libs io extension retries rounds o s)
  after_job-EndsWell none s c = tt
  after_job-EndsWell (some app) s c = c

  take_job-EndsWell :
      (granted : Bool) (event : Option JobEvent) (s : Running W)
      → Closes s
      → EndsWell (take_job libs io extension retries rounds granted event s)
  unfolding take_job
  take_job-EndsWell granted none s c = tt
  take_job-EndsWell granted (some event) s c =
      after_job-EndsWell (with_thread granted s.app (handle_job_event libs event s.app)) s c

  select-EndsWell :
      (granted : Bool) (r : Ready) (s : Running W)
      → Closes s
      → EndsWell (select libs io extension retries rounds granted r s)
  unfolding select
  select-EndsWell granted Ready.input s c = take_input-EndsWell granted s.inputs s c
  select-EndsWell granted Ready.job s c =
      take_job-EndsWell granted (get_elem? (reverse s.app.jobs.sent) s.heard) s c
  select-EndsWell granted Ready.tick s c = c

  after_draw-EndsWell :
      (t : Turn) (o : Option (Frame × App W)) (s : Running W)
      → Closes s
      → EndsWell (after_draw libs io extension retries rounds t o s)
  unfolding after_draw
  after_draw-EndsWell t none s c = tt
  after_draw-EndsWell t (some (f, app)) s c = drawn t.draw_error
    where
      drawn :
          (e : Option Str)
          → EndsWell (elim e [
            | some text ↦
                returned (err (codes "failed to draw frame: " ++ text)) (record s { app = app })
            | none ↦ elim app.should_quit [
              | true ↦ returned (ok tt) (record s { app = app })
              | false ↦
                  select libs io extension retries rounds t.starts_thread t.is_ready
                    (record s { app = app })
            ]
          ])
      drawn (some text) = tt
      drawn none = elim (Bool-cases app.should_quit) [
        | inl quit ↦ rw quit quit
        | inr stay ↦ rw stay (select-EndsWell t.starts_thread t.is_ready (record s { app = app }) c)
      ]

  turn-EndsWell :
      (t : Turn) (s : Running W) → Closes s → EndsWell (turn libs io extension retries rounds t s)
  unfolding turn
  turn-EndsWell t s c =
      after_draw-EndsWell t (render libs t.left_height t.right_height t.dialog_x s.app) s c

  module _ {ConnectError : Type 0} (threads : Threads W ConnectError) where
    Runs-Closes :
        {first s : Running W}
        → Closes first
        → Runs libs io extension retries rounds threads first s
        → Closes s
    Runs-Closes c starts = c
    Runs-Closes c (then_happens {s} before (turns t small room e)) =
        subst EndsWell e (turn-EndsWell t s (Runs-Closes c before))
    Runs-Closes c (then_happens {s} before (polls is_paused polled)) =
        poll-Closes is_paused polled s (Runs-Closes c before)
    Runs-Closes c (then_happens before (reports _ _ _)) = Runs-Closes c before
    Runs-Closes c (then_happens before (works _ _ _ _ _ _)) = Runs-Closes c before
    Runs-Closes c (then_happens before (crashes _ _ _)) = Runs-Closes c before
    Runs-Closes c (then_happens before (elapses _)) = Runs-Closes c before

    -- The loop ends without an error only when the user quit: whatever happens after its start, in any order, a
    -- turn that returns `Ok` leaves `should_quit` set. When the input thread has ended, the error that
    -- ended it is still to be received, so that the loop never finds the channel merely hung up.
    pub turn-quits :
        (app : App W) (s s' : Running W) (t : Turn)
        → Runs libs io extension retries rounds threads (begin app) s
        → turn libs io extension retries rounds t s ≡ returned (ok tt) s'
        → s'.app.should_quit ≡ true
    turn-quits app s s' t runs e = subst EndsWell e (turn-EndsWell t s (Runs-Closes (λ h. cc) runs))
