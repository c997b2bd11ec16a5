-- ===== src/Connect/Form.antt =====
-- crates/core/src/mode.rs and crates/app/src/actions.rs: the connect form under its keys, and the profiles
-- that fill it.
use mathlib.Core.Option
use pfnc.Prelude.{
  ℕ, zero, suc, ◌+◌, ◌%◌, ◌^◌, ◌≤◌, ◌<◌, ◌≡◌, inl, inr, refl, ap, Bool, true, false, Bool-cases,
  Option, none, some, List, [], ◌∷◌, Str, length, ltb, ltb→lt, ◌/◌, All, All-append, is_empty,
  arith, codes, if◌then◌else◌,
}
use pfnc.Prelude.Words.{isize_bound}
use pfnc.Prelude.Decimal.{to_digits, parse_unsigned, parse_unsigned-to_digits}
use pfnc.Keys.{
  KeyCode, f_key, char, esc, enter, tab, backspace, left, right, up, down, home, end_key, page_up,
  page_down, unnamed,
}
use pfnc.Editable.{IsValid}
use pfnc.Editable.Keys.{TextKey, press-Grown}
use pfnc.Connect.{
  ConnectForm, ConnectField, SavedProfileSummary, FormStep, stays, browsing, submits,
  handle_connect_key, next_field, prev_field, edit_focused, apply_saved, submit, fill_from,
  saved_at, is_whitespace, trim, trim_right, submission, connects, max_port, refused, check_port,
}

-- A form with its four fields.
abbrev pub four :
    ConnectField
    → ConnectField
    → ConnectField
    → ConnectField
    → ℕ
    → Option Str
    → List SavedProfileSummary
    → ConnectForm
four host port username password focus error saved = record {
  fields = host ∷ port ∷ username ∷ password ∷ [];
  focus = focus;
  error = error;
  saved = saved;
}

-- There is room for one more character.
abbrev pub HasRoom : ConnectField → Type 0
HasRoom field = IsValid field.text × (length field.text.value + 1 < isize_bound)

-- The cursor is in the text.
abbrev pub InText : ConnectField → Type 0
InText field = field.text.cursor ≤ length field.text.value

-- A form with its four fields, each with its cursor in the text, and one of them in focus.
pub record IsWhole (form : ConnectForm) : Type 0 where
  pub whole_host : ConnectField
  pub whole_port : ConnectField
  pub whole_username : ConnectField
  pub whole_password : ConnectField
  pub whole_fields : form.fields ≡ whole_host ∷ whole_port ∷ whole_username ∷ whole_password ∷ []
  pub whole_texts : All InText form.fields
  pub whole_focus : form.focus < 4

-- What a key leaves on the screen is a whole form; so is one that is not accepted.
abbrev pub LeavesWhole : FormStep → Type 0
LeavesWhole browsing = Unit {0}
LeavesWhole (stays form) = IsWhole form
LeavesWhole (submits (refused form)) = IsWhole form
LeavesWhole (submits (connects _)) = Unit {0}

abbrev whole :
    (a b c d : ConnectField) (focus : ℕ) (error : Option Str) (saved : List SavedProfileSummary)
    → All InText (a ∷ b ∷ c ∷ d ∷ [])
    → focus < 4
    → IsWhole (four a b c d focus error saved)
whole a b c d focus error saved texts h = record {
  whole_host = a;
  whole_port = b;
  whole_username = c;
  whole_password = d;
  whole_fields = refl;
  whole_texts = texts;
  whole_focus = h;
}

module _ (a b c d : ConnectField) (error : Option Str) (saved : List SavedProfileSummary)
    (room_a : HasRoom a) (room_b : HasRoom b) (room_c : HasRoom c) (room_d : HasRoom d) where
  texts : All InText (a ∷ b ∷ c ∷ d ∷ [])
  texts = (room_a.0.in_text, (room_b.0.in_text, (room_c.0.in_text, (room_d.0.in_text, tt))))

  edit-IsWhole :
      (key : TextKey) (focus : ℕ)
      → focus < 4
      → (form : ConnectForm) × (edit_focused key (four a b c d focus error saved) ≡ some form)
        × IsWhole form
  unfolding edit_focused
  edit-IsWhole key zero h =
      let (t, e, g) = press-Grown key a.text room_a.0 room_a.1 in
      (
        four (record a { text = t }) b c d 0 error saved,
        rw e refl,
        whole _ b c d 0 error saved
            (g.grown_valid.in_text, (room_b.0.in_text, (room_c.0.in_text, (room_d.0.in_text, tt))))
            h,
      )
  edit-IsWhole key (suc zero) h =
      let (t, e, g) = press-Grown key b.text room_b.0 room_b.1 in
      (
        four a (record b { text = t }) c d 1 error saved,
        rw e refl,
        whole a _ c d 1 error saved
            (room_a.0.in_text, (g.grown_valid.in_text, (room_c.0.in_text, (room_d.0.in_text, tt))))
            h,
      )
  edit-IsWhole key (suc (suc zero)) h =
      let (t, e, g) = press-Grown key c.text room_c.0 room_c.1 in
      (
        four a b (record c { text = t }) d 2 error saved,
        rw e refl,
        whole a b _ d 2 error saved
            (room_a.0.in_text, (room_b.0.in_text, (g.grown_valid.in_text, (room_d.0.in_text, tt))))
            h,
      )
  edit-IsWhole key (suc (suc (suc zero))) h =
      let (t, e, g) = press-Grown key d.text room_d.0 room_d.1 in
      (
        four a b c (record d { text = t }) 3 error saved,
        rw e refl,
        whole a b c _ 3 error saved
            (room_a.0.in_text, (room_b.0.in_text, (room_c.0.in_text, (g.grown_valid.in_text, tt))))
            h,
      )
  edit-IsWhole key (suc (suc (suc (suc n)))) h = absurd (omega arith)

  edited :
      (key : TextKey) (focus : ℕ)
      → focus < 4
      → (step : FormStep) × (Option.map stays (edit_focused key (four a b c d focus error saved))
          ≡ some step)
        × LeavesWhole step
  edited key focus h =
      let (form, e, w) = edit-IsWhole key focus h in (stays form, ap (Option.map stays) e, w)

  filled :
      (focus : ℕ) (found : Option SavedProfileSummary)
      → focus < 4
      → (step : FormStep) × (fill_from (four a b c d focus error saved) found ≡ some step)
        × LeavesWhole step
  unfolding fill_from apply_saved
  filled focus none h = (_, refl, whole a b c d focus error saved texts h)
  filled focus (some profile) h = (
    _,
    refl,
    whole _ _ _ d focus error saved
        (omega arith, (omega arith, (omega arith, (room_d.0.in_text, tt)))) h,
  )

  checked :
      (focus : ℕ) (host username : Str) (port : Option ℕ)
      → focus < 4
      → LeavesWhole
          (submits (check_port (four a b c d focus error saved) host username d.text.value port))
  checked focus host username none h = whole a b c d focus _ saved texts h
  checked focus host username (some port) h = tt

  submitted :
      (focus : ℕ) (t : Bool)
      → focus < 4
      → LeavesWhole (
          submits (
            if t
            then refused (record (four a b c d focus error saved) {
              error = some (codes "Host is required");
            })
            else check_port
                (four a b c d focus error saved)
                (trim a.text.value)
                (trim c.text.value)
                d.text.value
                (parse_unsigned max_port (trim b.text.value))))
  submitted focus true h = whole a b c d focus _ saved texts h
  submitted focus false h =
      checked focus (trim a.text.value) (trim c.text.value)
        (parse_unsigned max_port (trim b.text.value)) h

  -- In a form with its four fields, one of them in focus, where each text has its cursor in it and room for
  -- one more character, no key panics: it goes back to browsing, submits, or leaves such a form again, with
  -- four fields, each cursor in its text, and a focus.
  pub handle_connect_key-IsWhole :
      (key : KeyCode) (focus : ℕ)
      → focus < 4
      → (step : FormStep) × (handle_connect_key key (four a b c d focus error saved) ≡ some step)
        × LeavesWhole step
  unfolding handle_connect_key submit next_field prev_field
  handle_connect_key-IsWhole (f_key n) focus h =
      filled focus (saved_at n (four a b c d focus error saved)) h
  handle_connect_key-IsWhole esc focus h = (browsing, refl, tt)
  handle_connect_key-IsWhole enter focus h =
      (_, refl, submitted focus (is_empty (trim a.text.value)) h)
  handle_connect_key-IsWhole tab focus h =
      (_, refl, whole a b c d _ error saved texts (omega arith))
  handle_connect_key-IsWhole down focus h =
      (_, refl, whole a b c d _ error saved texts (omega arith))
  handle_connect_key-IsWhole up focus h = (_, refl, whole a b c d _ error saved texts (omega arith))
  handle_connect_key-IsWhole backspace focus h = edited TextKey.backspace_key focus h
  handle_connect_key-IsWhole left focus h = edited TextKey.left focus h
  handle_connect_key-IsWhole right focus h = edited TextKey.right focus h
  handle_connect_key-IsWhole home focus h = edited TextKey.home focus h
  handle_connect_key-IsWhole end_key focus h = edited TextKey.end_key focus h
  handle_connect_key-IsWhole (char c') focus h = edited (TextKey.char c') focus h
  handle_connect_key-IsWhole page_up focus h = (_, refl, whole a b c d focus error saved texts h)
  handle_connect_key-IsWhole page_down focus h = (_, refl, whole a b c d focus error saved texts h)
  handle_connect_key-IsWhole (unnamed _) focus h =
      (_, refl, whole a b c d focus error saved texts h)

-- Text that `trim` leaves as it is.
trim_right-Unspaced : (s : Str) → All (λ c. is_whitespace c ≡ false) s → trim_right s ≡ s
trim_right-Unspaced [] h = refl
trim_right-Unspaced (c ∷ []) h = rw h.0 refl
trim_right-Unspaced (c ∷ d ∷ s) h = rw (trim_right-Unspaced (d ∷ s) h.1) refl

trim-Unspaced : (s : Str) → All (λ c. is_whitespace c ≡ false) s → trim s ≡ s
trim-Unspaced [] h = refl
trim-Unspaced (c ∷ s) h = rw h.0 (trim_right-Unspaced (c ∷ s) h)

digit-Unspaced : (d : ℕ) → d < 10 → is_whitespace (48 + d) ≡ false
digit-Unspaced d h = ground arith

pub to_digits-Unspaced : (fuel n : ℕ) → All (λ c. is_whitespace c ≡ false) (to_digits fuel n)
unfolding to_digits
to_digits-Unspaced zero n = tt
to_digits-Unspaced (suc fuel) n = elim (Bool-cases (ltb n 10)) [
  | inl one ↦ rw one (digit-Unspaced n (ltb→lt n 10 one), tt)
  | inr more ↦ rw more (
      All-append _ (to_digits fuel (n / 10)) _ (to_digits-Unspaced fuel (n / 10))
        (digit-Unspaced (n % 10) (omega arith), tt))
]

-- A saved profile that is chosen from the list and submitted connects to the host, the port and the user
-- that were saved, with the password that was typed: for a host that is not empty, a port below 65536, and
-- a host and user name that `trim` leaves as they are.
pub submit-apply_saved :
    (a b c d : ConnectField) (focus : ℕ) (error : Option Str) (saved : List SavedProfileSummary)
    (profile : SavedProfileSummary)
    → is_empty profile.host ≡ false
    → trim profile.host ≡ profile.host
    → trim profile.username ≡ profile.username
    → profile.port < 2 ^ 16
    → Option.bind (apply_saved profile (four a b c d focus error saved)) submit
      ≡ some (connects (submission profile.host profile.port profile.username d.text.value))
unfolding apply_saved submit Option.bind
submit-apply_saved a b c d focus error saved profile some_host host_kept user_kept small =
    let port_kept = trim-Unspaced (to_digits 5 profile.port) (to_digits-Unspaced 5 profile.port) in
    let port_read = parse_unsigned-to_digits max_port 4 profile.port (omega arith) (omega arith) in
    rw (host_kept, user_kept, port_kept, port_read, some_host) refl
