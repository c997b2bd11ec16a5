-- ===== src/Editable/Bytes.antt =====
-- crates/core/src/mode.rs: byte positions and the characters on either side of them.
use mathlib.Core.Option
use native.Mathlib.Nat.{add_assoc, zero-add}
use pfnc.Prelude.{
  ℕ, zero, suc, ◌+◌, ◌-◌, ◌≤◌, ◌<◌, ◌∙◌, ◌≡◌, refl, ap, true, false, some, [], ◌∷◌, ◌++◌, arith,
  take, drop, get_elem?, Str, leb, take-append-drop, subst,
}
use pfnc.Prelude.Words.{add_word}
use pfnc.Editable.{
  EditableText, IsValid, utf8_len, byte_len, split_at_byte, insert_at_byte, remove_bytes,
  char_offsets, byte_index, insert_char, backspace,
}

leb-true : (a b : ℕ) → a ≤ b → leb a b ≡ true
leb-true a b h = ground arith

some_left : (k : ℕ) → leb (suc k) 0 ≡ false
some_left k = ground arith

utf8_len_pos : (c : ℕ) → 0 < utf8_len c
utf8_len_pos c = ground arith

split_at_byte-cons :
    (c : ℕ) (t : Str) (k n : ℕ)
    → utf8_len c + k ≡ suc n
    → split_at_byte (c ∷ t) (suc n) ≡ Option.map (λ (a, b). (c ∷ a, b)) (split_at_byte t k)
unfolding split_at_byte
split_at_byte-cons c t k n e =
    let within : leb (utf8_len c) (suc n) ≡ true = leb-true (utf8_len c) (suc n) (omega arith) in
    let left : suc n - utf8_len c ≡ k = omega arith in rw (within, left)

-- A split at the bytes of a prefix is a split behind that prefix.
split_at_byte-append : (s t : Str) → split_at_byte (s ++ t) (byte_len s) ≡ some (s, t)
unfolding split_at_byte
split_at_byte-append [] t = refl
split_at_byte-append (c ∷ s) t =
    let e : utf8_len c + byte_len s ≡ suc (utf8_len c + byte_len s - 1) =
      omega (arith, utf8_len_pos c) in
    rw e (split_at_byte-cons c (s ++ t) (byte_len s) _ e ∙ rw (split_at_byte-append s t))

char_offsets_lem :
    (at n : ℕ) (s : Str)
    → Option.get_or (get_elem? (char_offsets at s) n) (at + byte_len s) ≡ at + byte_len (take n s)
unfolding char_offsets
char_offsets_lem at zero [] = omega arith
char_offsets_lem at (suc n) [] = omega arith
char_offsets_lem at zero (c ∷ s) = omega arith
char_offsets_lem at (suc n) (c ∷ s) =
    rw (← add_assoc) (rw (← add_assoc) (char_offsets_lem (at + utf8_len c) n s))

byte_index_lem : (e : EditableText) (n : ℕ) → byte_index e n ≡ byte_len (take n e.value)
unfolding byte_index
byte_index_lem e n = simp zero-add at (char_offsets_lem 0 n e.value)

split_at_byte-take :
    (n : ℕ) (s : Str) → split_at_byte s (byte_len (take n s)) ≡ some (take n s, drop n s)
split_at_byte-take n s =
    subst (λ t. split_at_byte t (byte_len (take n s)) ≡ some (take n s, drop n s))
      (take-append-drop n s) (split_at_byte-append (take n s) (drop n s))

take-take : (n : ℕ) (s : Str) → take n (take (suc n) s) ≡ take n s
take-take zero s = refl
take-take (suc n) [] = refl
take-take (suc n) (c ∷ s) = ap (c ∷◌) (take-take n s)

insert_at_byte_lem :
    (n c : ℕ) (s : Str)
    → insert_at_byte s (byte_len (take n s)) c ≡ some (take n s ++ (c ∷ drop n s))
unfolding insert_at_byte
insert_at_byte_lem n c s = rw (split_at_byte-take n s)

remove_bytes_lem :
    (k : ℕ) (s : Str)
    → remove_bytes s (byte_len (take k s)) (byte_len (take (suc k) s))
      ≡ some (take k s ++ drop (suc k) s)
unfolding remove_bytes Option.bind
remove_bytes_lem k s =
    rw (split_at_byte-take (suc k) s)
      (rw (rw (take-take k s) at (split_at_byte-take k (take (suc k) s))))

-- With the cursor in the text, `insert_char` does not panic: the character is put before those from the
-- cursor on, and the cursor goes behind it.
pub insert_char_lem :
    (c : ℕ) (e : EditableText)
    → IsValid e
    → insert_char c e
      ≡ some (record {
        value = take e.cursor e.value ++ (c ∷ drop e.cursor e.value);
        cursor = e.cursor + 1;
      })
unfolding insert_char
insert_char_lem c e v =
    let one : add_word e.cursor 1 ≡ e.cursor + 1 = omega arith in
    rw (byte_index_lem e e.cursor, insert_at_byte_lem e.cursor c e.value, one)

backspace_at :
    (s : Str) (n : ℕ)
    → backspace (record { value = s; cursor = n })
      ≡ some (record { value = take (n - 1) s ++ drop n s; cursor = n - 1 })
unfolding backspace
backspace_at s zero = refl
backspace_at s (suc k) =
    let before : suc k - 1 ≡ k = omega arith in
    rw (
      before,
      some_left k,
      byte_index_lem (record { value = s; cursor = suc k }) k,
      byte_index_lem (record { value = s; cursor = suc k }) (suc k),
      remove_bytes_lem k s,
    )

-- `backspace` never panics: it removes the character before the cursor, and at the start of the text does
-- nothing.
pub backspace_lem :
    (e : EditableText)
    → backspace e
      ≡ some (record {
        value = take (e.cursor - 1) e.value ++ drop e.cursor e.value;
        cursor = e.cursor - 1;
      })
backspace_lem e = backspace_at e.value e.cursor
