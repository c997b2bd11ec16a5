-- ===== src/App/Whole.antt =====
-- crates/app/src/actions.rs: the dialogs after keys and after events, and the keys that could panic.

use pfnc.Prelude.{◌≡◌, refl, Option, some}
use pfnc.Keys.{
  KeyCode, f_key, char, esc, enter, tab, backspace, left, right, up, down, home, end_key, page_up,
  page_down, unnamed,
}
use pfnc.Editable.Keys.{TextKey}
use pfnc.Panel.{PanelState}
use pfnc.Job.Manager.{JobEvent}
use pfnc.App.{
  App, Libs, Mode, browsing, help, confirm, text_input, connecting, running, TextInputPrompt,
  PaneSide, left_side, right_side, put_panel, reload, begin_job, probe_quic, spawn_task,
}
use pfnc.App.Dispatch.{handle_key, dispatch, handle_text_input_key, edit_prompt, after_connect}
use pfnc.App.Events.{handle_job_event}
use pfnc.App.Modes.{IsWholeMode, HasRoomMode, HasSpace, press_whole, connect_key_whole}
use pfnc.App.Frame.Reactions.{Reacts, handle_job_event_keeps}
use pfnc.App.Frame.{Rules}
use pfnc.App.Frame.Dialogs.{handle_key_keeps}

abbrev pub IsInOrder : {W : Type 0} → App W → Type 0
IsInOrder app = IsWholeMode app.mode

module _ {W : Type 0} where
  put_panel-IsInOrder :
      (side : PaneSide) (p : PanelState) (app : App W)
      → IsInOrder app
      → IsInOrder (put_panel side p app)
  put_panel-IsInOrder left_side p app w = w
  put_panel-IsInOrder right_side p app w = w

  pub reload-IsInOrder :
      (side : PaneSide) (app : App W) → IsInOrder app → IsInOrder (reload side app)
  unfolding reload
  reload-IsInOrder side app w = put_panel-IsInOrder side _ _ w

  probe_quic-IsInOrder :
      (side : PaneSide) (app : App W) → IsInOrder app → IsInOrder (probe_quic side app)
  unfolding probe_quic
  probe_quic-IsInOrder side app w = put_panel-IsInOrder side _ _ w

  pub order_rules : Rules {W = W} Unit IsInOrder
  unfolding begin_job
  order_rules = record {
    sets_mode = λ _ _ fits w. fits tt w;
    sets_status = λ _ _ _ fits w. fits tt w;
    quits = λ _ w. w;
    switches = λ _ _ w. w;
    requests = λ _ _ w. w;
    cancels = λ _ _ _ fits w. fits tt w;
    changes = λ f app _ w. put_panel-IsInOrder app.active _ app w;
    reloads = reload-IsInOrder;
    acts = λ _ _ _ w. w;
    allocates = λ _ _ _ w. w;
    begins = λ _ _ _ _ _ _ _. tt;
  }

  order_reacts : Reacts {W = W} IsInOrder
  unfolding spawn_task
  order_reacts = record {
    turns = λ side _ app w. put_panel-IsInOrder side _ app w;
    probes = probe_quic-IsInOrder;
    configures = λ _ _ w. w;
    warms = λ _ _ _ _ w. w;
    forgets = λ _ _ _ w. w;
  }

  module _ {Float : Type 0} (libs : Libs Float) where
    pub handle_job_event-IsInOrder :
        (event : JobEvent) (app : App W)
        → IsWholeMode app.mode
        → IsWholeMode (handle_job_event libs event app).mode
    handle_job_event-IsInOrder event app w =
        handle_job_event_keeps Unit IsInOrder order_rules order_reacts libs event app w

    -- A step that does not panic.
    abbrev Returns : Option (App W) → Type 0
    Returns o = (after : App W) × (o ≡ some after)

    edited :
        (prompt : TextInputPrompt) (key : TextKey) (app : App W)
        → IsWholeMode (text_input prompt)
        → HasSpace prompt.text
        → Returns (edit_prompt prompt key app)
    unfolding edit_prompt
    edited prompt key app w space =
        let (text, e, _) = press_whole key prompt.text w space in
        (record app { mode = text_input (record prompt { text = text }) }, rw e refl)

    typed :
        (prompt : TextInputPrompt) (key : KeyCode) (app : App W)
        → IsWholeMode (text_input prompt)
        → HasSpace prompt.text
        → Returns (handle_text_input_key libs prompt key app)
    unfolding handle_text_input_key
    typed prompt enter app w space = (_, refl)
    typed prompt esc app w space = (_, refl)
    typed prompt backspace app w space = edited prompt TextKey.backspace_key app w space
    typed prompt left app w space = edited prompt TextKey.left app w space
    typed prompt right app w space = edited prompt TextKey.right app w space
    typed prompt home app w space = edited prompt TextKey.home app w space
    typed prompt end_key app w space = edited prompt TextKey.end_key app w space
    typed prompt (char c) app w space = edited prompt (TextKey.char c) app w space
    typed prompt tab app w space = (_, refl)
    typed prompt up app w space = (_, refl)
    typed prompt down app w space = (_, refl)
    typed prompt page_up app w space = (_, refl)
    typed prompt page_down app w space = (_, refl)
    typed prompt (f_key _) app w space = (_, refl)
    typed prompt (unnamed _) app w space = (_, refl)

    dispatched :
        (m : Mode) (key : KeyCode) (app : App W)
        → IsWholeMode m
        → HasRoomMode m
        → Returns (dispatch libs m key app)
    unfolding dispatch
    dispatched browsing key app w room = (_, refl)
    dispatched help key app w room = (_, refl)
    dispatched (confirm dialog) key app w room = (_, refl)
    dispatched (running state) key app w room = (_, refl)
    dispatched (text_input prompt) key app w room = typed prompt key app w room
    dispatched (connecting form) key app w room =
        let (step, e, _) = connect_key_whole key form w room in (after_connect step app, rw e refl)

    -- With the dialog in order, and room for one more character in its texts, no key panics, and the dialog
    -- that it leaves is in order again.
    pub handle_key-IsInOrder :
        (key : KeyCode) (app : App W)
        → IsWholeMode app.mode
        → HasRoomMode app.mode
        → (after : App W) × (handle_key libs key app ≡ some after) × IsWholeMode after.mode
    unfolding handle_key
    handle_key-IsInOrder key app w room =
        let (after, e) = dispatched app.mode key (record app { mode = browsing }) w room in
        (
          after,
          e,
          rw e at (
              handle_key_keeps libs Unit IsInOrder order_rules key app (λ _ _ _. tt)
                (λ _ _ _ _ _. tt) (λ _ _ _ _ _ _ _. tt) (λ _ _ _ _ _ _ _ _ _ _ _ _ p. tt)
                (λ _. (w, room)) w),
        )
