-- ===== src/Connect.antt =====
-- The connect form: `ConnectForm` of crates/core/src/mode.rs, and `handle_connect_key` and the checks of
-- `submit_connect` of crates/app/src/actions.rs. `none` is a panic.
pub mod Form
mod Tests
use mathlib.Core.Option
use pfnc.Prelude.{
  ℕ, zero, suc, ◌+◌, ◌-◌, ◌*◌, ◌%◌, ◌^◌, Bool, true, false, ◌||◌, ◌&&◌, Option, none, some, List,
  [], ◌∷◌, ◌++◌, Str, codes, length, get_elem?, set, is_empty, leb, ◌==◌, if◌then◌else◌,
}
use pfnc.Prelude.Words.{add_word}
use pfnc.Prelude.Partial.{◌>>=◌}
use pfnc.Prelude.Decimal.{to_digits, parse_unsigned}
use pfnc.Keys.{
  KeyCode, f_key, char, esc, enter, tab, backspace, left, right, up, down, home, end_key, page_up,
  page_down, unnamed,
}
use pfnc.Editable.{EditableText}
use pfnc.Editable.Keys.{TextKey, press}
use pfnc.Editable

pub record ConnectField : Type 0 where
  pub label : Str
  pub text : EditableText
  pub secret : Bool

pub record SavedProfileSummary : Type 0 where
  pub id : Str
  pub host : Str
  pub port : ℕ
  pub username : Str

pub record ConnectForm : Type 0 where
  pub fields : List ConnectField
  pub focus : ℕ
  pub error : Option Str
  pub saved : List SavedProfileSummary

abbrev pub new_field : Str → Str → Bool → ConnectField
unfolding Editable.new
new_field label value secret = record { label = label; text = Editable.new value; secret = secret }

unfoldable pub new_form : Str → List SavedProfileSummary → ConnectForm
unfolding new_field
new_form default_username saved = record {
  fields =
      new_field (codes "Host") [] false
      ∷ new_field (codes "Port") (codes "22") false
      ∷ new_field (codes "Username") default_username false
      ∷ new_field (codes "Password") [] true
      ∷ [];
  focus = 0;
  error = none;
  saved = saved;
}

-- `self.fields[i].text = …`
abbrev pub put_text : ℕ → EditableText → List ConnectField → Option (List ConnectField)
put_text i text fields =
    Option.map (λ field. set fields i (record field { text = text })) (get_elem? fields i)

-- `u16::to_string`.
abbrev pub show_port : ℕ → Str
unfolding to_digits
show_port port = to_digits 5 port

unfoldable pub apply_saved : SavedProfileSummary → ConnectForm → Option ConnectForm
unfolding Editable.new show_port
apply_saved profile form = do
  with_host ← put_text 0 (Editable.new profile.host) form.fields
  with_port ← put_text 1 (Editable.new (show_port profile.port)) with_host
  with_username ← put_text 2 (Editable.new profile.username) with_port
  some (record form { fields = with_username })

-- The remainder by the number of fields panics when there are none.
unfoldable pub next_field : ConnectForm → Option ConnectForm
next_field form =
    if is_empty form.fields
    then none
    else some (record form { focus = add_word form.focus 1 % length form.fields })

unfoldable pub prev_field : ConnectForm → Option ConnectForm
prev_field form =
    if is_empty form.fields
    then none
    else some (record form {
      focus = (add_word form.focus (length form.fields) - 1) % length form.fields;
    })

-- `form.focused_mut().text.…`
unfoldable pub edit_focused : TextKey → ConnectForm → Option ConnectForm
unfolding press
edit_focused key form = do
  field ← get_elem? form.fields form.focus
  text ← press key field.text
  some (record form { fields = set form.fields form.focus (record field { text = text }) })

-- `char::is_whitespace`, and `str::trim`.
abbrev pub is_whitespace : ℕ → Bool
is_whitespace c =
    (leb 9 c && leb c 13)
    || c == 32
    || c == 133
    || c == 160
    || c == 5760
    || (leb 8192 c && leb c 8202)
    || c == 8232
    || c == 8233
    || c == 8239
    || c == 8287
    || c == 12288

abbrev pub trim_left : Str → Str
trim_left [] = []
trim_left (c ∷ s) = let rest = trim_left s in if is_whitespace c then rest else c ∷ s

abbrev pub trim_right_onto : ℕ → Str → Str
trim_right_onto c [] = if is_whitespace c then [] else c ∷ []
trim_right_onto c (d ∷ s) = c ∷ d ∷ s

abbrev pub trim_right : Str → Str
trim_right [] = []
trim_right (c ∷ s) = trim_right_onto c (trim_right s)

abbrev pub trim : Str → Str
trim s = trim_right (trim_left s)

-- What `submit_connect` hands to the job: the summary to be saved, and the password if there is one.
pub record Submission : Type 0 where
  pub summary : SavedProfileSummary
  pub password : Option Str

pub data Submitted : Type 0 where
  refused : ConnectForm → Submitted
  connects : Submission → Submitted

abbrev pub text_at : ℕ → ConnectForm → Option Str
text_at i form = Option.map (λ field. field.text.value) (get_elem? form.fields i)

abbrev pub max_port : ℕ
max_port = 2 ^ 16 - 1

-- `format!("{username}@{host}:{port}")`
abbrev pub profile_id : Str → Str → ℕ → Str
profile_id username host port = username ++ (codes "@" ++ (host ++ (codes ":" ++ show_port port)))

abbrev pub submission : Str → ℕ → Str → Str → Submission
submission host port username password = record {
  summary = record {
    id = profile_id username host port;
    host = host;
    port = port;
    username = username;
  };
  password = if is_empty password then none else some password;
}

abbrev pub check_port : ConnectForm → Str → Str → Str → Option ℕ → Submitted
check_port form host username password none =
    refused (record form { error = some (codes "Port must be a number") })
check_port form host username password (some port) =
    connects (submission host port username password)

unfoldable pub submit : ConnectForm → Option Submitted
unfolding parse_unsigned show_port
submit form = do
  host ← text_at 0 form
  port ← text_at 1 form
  username ← text_at 2 form
  password ← text_at 3 form
  some (
      if is_empty (trim host)
      then refused (record form { error = some (codes "Host is required") })
      else check_port form (trim host) (trim username) password
          (parse_unsigned max_port (trim port)))

-- The mode that a key leads to.
pub data FormStep : Type 0 where
  browsing : FormStep
  stays : ConnectForm → FormStep
  submits : Submitted → FormStep

abbrev pub saved_at : ℕ → ConnectForm → Option SavedProfileSummary
saved_at zero form = none
saved_at (suc i) form = get_elem? form.saved i

unfoldable pub fill_from : ConnectForm → Option SavedProfileSummary → Option FormStep
unfolding apply_saved
fill_from form none = some (stays form)
fill_from form (some profile) = Option.map stays (apply_saved profile form)

unfoldable pub handle_connect_key : KeyCode → ConnectForm → Option FormStep
unfolding fill_from submit next_field prev_field edit_focused
handle_connect_key (f_key n) form = fill_from form (saved_at n form)
handle_connect_key esc form = some browsing
handle_connect_key enter form = Option.map submits (submit form)
handle_connect_key tab form = Option.map stays (next_field form)
handle_connect_key down form = Option.map stays (next_field form)
handle_connect_key up form = Option.map stays (prev_field form)
handle_connect_key backspace form = Option.map stays (edit_focused TextKey.backspace_key form)
handle_connect_key left form = Option.map stays (edit_focused TextKey.left form)
handle_connect_key right form = Option.map stays (edit_focused TextKey.right form)
handle_connect_key home form = Option.map stays (edit_focused TextKey.home form)
handle_connect_key end_key form = Option.map stays (edit_focused TextKey.end_key form)
handle_connect_key (char c) form = Option.map stays (edit_focused (TextKey.char c) form)
handle_connect_key page_up form = some (stays form)
handle_connect_key page_down form = some (stays form)
handle_connect_key (unnamed _) form = some (stays form)
