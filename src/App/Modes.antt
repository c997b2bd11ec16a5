-- ===== src/App/Modes.antt =====
-- crates/core/src/mode.rs: the texts of the dialogs, and the room that is left in them.
use mathlib.Core.Option.{some-injective}
use pfnc.Prelude.{
  ◌+◌, ◌≤◌, ◌<◌, ◌≡◌, refl, sym, ◌∙◌, subst, some, List, Str, length, All, codes, [], true, false,
  arith,
}
use pfnc.Prelude.Words.{isize_bound}
use pfnc.Keys.{KeyCode}
use pfnc.Editable.{EditableText}
use pfnc.Editable.Keys.{TextKey, press, press-Grown}
use pfnc.Connect.{
  ConnectForm, SavedProfileSummary, FormStep, new_form, new_field, handle_connect_key,
}
use pfnc.Connect.Form.{IsWhole, InText, LeavesWhole, handle_connect_key-IsWhole}
use pfnc.App.{
  Mode, browsing, help, confirm, text_input, connecting, running, TextInputPurpose, new_prompt,
}

-- The cursor is in the text of the prompt; the form has its four fields.
abbrev pub IsWholeMode : Mode → Type 0
IsWholeMode browsing = Unit {0}
IsWholeMode help = Unit {0}
IsWholeMode (confirm _) = Unit {0}
IsWholeMode (text_input prompt) = prompt.text.cursor ≤ length prompt.text.value
IsWholeMode (connecting form) = IsWhole form
IsWholeMode (running _) = Unit {0}

abbrev pub HasSpace : EditableText → Type 0
HasSpace text = length text.value + 1 < isize_bound

-- Memory holds one more character in every text of the dialog.
abbrev pub HasRoomMode : Mode → Type 0
HasRoomMode browsing = Unit {0}
HasRoomMode help = Unit {0}
HasRoomMode (confirm _) = Unit {0}
HasRoomMode (text_input prompt) = HasSpace prompt.text
HasRoomMode (connecting form) = All (λ field. HasSpace field.text) form.fields
HasRoomMode (running _) = Unit {0}

pub new_prompt-IsWholeMode :
    (title value : Str) (purpose : TextInputPurpose)
    → IsWholeMode (text_input (new_prompt title value purpose))
unfolding new_prompt
new_prompt-IsWholeMode title value purpose = omega arith

pub new_form-IsWhole :
    (username : Str) (saved : List SavedProfileSummary) → IsWhole (new_form username saved)
unfolding new_form
new_form-IsWhole username saved = record {
  whole_host = new_field (codes "Host") [] false;
  whole_port = new_field (codes "Port") (codes "22") false;
  whole_username = new_field (codes "Username") username false;
  whole_password = new_field (codes "Password") [] true;
  whole_fields = refl;
  whole_texts = (omega arith, (omega arith, (omega arith, (omega arith, tt))));
  whole_focus = omega arith;
}

-- An editing key on a text with its cursor in it.
pub press_whole :
    (key : TextKey) (text : EditableText)
    → text.cursor ≤ length text.value
    → HasSpace text
    → (text' : EditableText) × (press key text ≡ some text') × text'.cursor ≤ length text'.value
press_whole key text whole space =
    let (text', e, g) =
      press-Grown key text (record { in_text = whole; held = omega arith }) space in
    (text', e, g.grown_valid.in_text)

-- `handle_connect_key-IsWhole`, whatever the fields are called.
pub connect_key_whole :
    (key : KeyCode) (form : ConnectForm)
    → IsWhole form
    → All (λ field. HasSpace field.text) form.fields
    → (step : FormStep) × (handle_connect_key key form ≡ some step) × LeavesWhole step
connect_key_whole key form whole space =
    subst
      (λ fields.
        All InText fields
        → All (λ field. HasSpace field.text) fields
        → (step : FormStep) × (handle_connect_key key (record form { fields = fields }) ≡ some step)
          × LeavesWhole step)
      (sym whole.whole_fields)
      (λ (a_in, (b_in, (c_in, (d_in, _)))) (a, (b, (c, (d, _)))).
        handle_connect_key-IsWhole whole.whole_host whole.whole_port whole.whole_username
          whole.whole_password form.error form.saved
          (record { in_text = a_in; held = omega arith }, a)
          (record { in_text = b_in; held = omega arith }, b)
          (record { in_text = c_in; held = omega arith }, c)
          (record { in_text = d_in; held = omega arith }, d) key form.focus whole.whole_focus)
      whole.whole_texts space

-- What the key leaves, if it leaves something.
pub press-InText :
    (key : TextKey) (text text' : EditableText)
    → press key text ≡ some text'
    → text.cursor ≤ length text.value
    → HasSpace text
    → text'.cursor ≤ length text'.value
press-InText key text text' e whole space =
    let (t, found, w) = press_whole key text whole space in
    subst (λ u. u.cursor ≤ length u.value) (some-injective t text' (sym found ∙ e)) w

pub connect_key-LeavesWhole :
    (key : KeyCode) (form : ConnectForm) (step : FormStep)
    → handle_connect_key key form ≡ some step
    → IsWhole form
    → All (λ field. HasSpace field.text) form.fields
    → LeavesWhole step
connect_key-LeavesWhole key form step e whole space =
    let (s, found, w) = connect_key_whole key form whole space in
    subst LeavesWhole (some-injective s step (sym found ∙ e)) w
