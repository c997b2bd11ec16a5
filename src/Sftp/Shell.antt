-- ===== src/Sftp/Shell.antt =====
-- crates/vfs-sftp/src/lib.rs, `shell_quote`, beside the words that a POSIX shell reads from a line.
use mathlib.Core.Option
use pfnc.Prelude.{
  ℕ, ◌≡◌, refl, Bool, true, false, Option, none, some, List, [], ◌∷◌, ◌++◌, append-nil, Str, codes,
  ◌==◌, if◌then◌else◌, Bool-cases, inl, inr, ==_iff, push_front,
}
use pfnc.Vfs.{VfsPath}
use pfnc.Sftp.{replace_char, shell_quote, hash_command}

pub data CharClass : Type 0 where
  space : CharClass
  quote : CharClass
  backslash : CharClass
  plain : CharClass
  special : CharClass

-- Letters, digits and `+ , - . / : = @ _ %` stand for themselves; what else a shell gives a meaning to
-- is not read here.
unfoldable pub is_plain : ℕ → List ℕ → Bool
is_plain c [] = false
is_plain c (x ∷ xs) = let rest = is_plain c xs in if x == c then true else rest

abbrev pub plain_chars : Str
plain_chars = codes "abcdefghijklmnopqrstuvwxyzABCDEFGHIJKLMNOPQRSTUVWXYZ0123456789+,-./:=@_%"

unfoldable pub class_of : ℕ → CharClass
unfolding is_plain
class_of c =
    if c == 39
    then quote
    else if c == 92
    then backslash
    else if c == 32
    then space
    else if is_plain c plain_chars
    then plain
    else special

-- Between two words, in a word, in a quoted part of a word, after a backslash.
pub data Place : Type 0 where
  between : Place
  in_word : Place
  quoted : Place
  escaped : Place
  refused : Place

unfoldable pub next_place : Place → CharClass → Place
next_place quoted quote = in_word
next_place quoted _ = quoted
next_place escaped _ = in_word
next_place refused _ = refused
next_place _ space = between
next_place _ quote = quoted
next_place _ backslash = escaped
next_place _ plain = in_word
next_place _ special = refused

-- What the character adds to the words that follow; the first is the word that is being read.
unfoldable pub put : Place → CharClass → ℕ → List Str → List Str
put quoted quote c words = words
put quoted _ c words = push_front c words
put escaped _ c words = push_front c words
put in_word space c words = [] ∷ words
put _ plain c words = push_front c words
put _ _ c words = words

-- The words of a line from a place in it on; `none` if a quoted part does not end, or the shell would
-- do more than to read words.
unfoldable pub words_from : Place → Str → Option (List Str)
unfolding class_of next_place put
words_from between [] = some []
words_from in_word [] = some ([] ∷ [])
words_from _ [] = none
words_from place (c ∷ s) =
    Option.map (put place (class_of c) c) (words_from (next_place place (class_of c)) s)

abbrev pub shell_words : Str → Option (List Str)
shell_words = words_from between

-- Inside quotes, all but a quote stands for itself.
words_from-quoted :
    (c : ℕ) (s : Str)
    → (c == 39) ≡ false
    → words_from quoted (c ∷ s) ≡ Option.map (push_front c) (words_from quoted s)
unfolding words_from class_of
words_from-quoted c s other = elim (Bool-cases (c == 92)) [
  | inl slash ↦ rw (other, slash) refl
  | inr no_slash ↦ elim (Bool-cases (c == 32)) [
    | inl blank ↦ rw (other, no_slash, blank) refl
    | inr no_blank ↦ elim (Bool-cases (is_plain c plain_chars)) [
      | inl is ↦ rw (other, no_slash, no_blank, is) refl
      | inr not_plain ↦ rw (other, no_slash, no_blank, not_plain) refl
    ]
  ]
]

words_from-replace_char :
    (s rest t : Str) (ts : List Str)
    → words_from in_word rest ≡ some (t ∷ ts)
    → words_from quoted (replace_char 39 (39 ∷ 92 ∷ 39 ∷ 39 ∷ []) s ++ (39 ∷ rest))
      ≡ some ((s ++ t) ∷ ts)
unfolding words_from replace_char
words_from-replace_char [] rest t ts after = rw after refl
words_from-replace_char (c ∷ s) rest t ts after = elim (Bool-cases (c == 39)) [
  | inl same ↦ rw (same, words_from-replace_char s rest t ts after, (==_iff c 39).0 same) refl
  | inr other ↦
      rw (other, words_from-quoted c _ other, words_from-replace_char s rest t ts after) refl
]

-- Whatever the name of the file, a shell reads from the line that `exec_quick_hash` runs the words of
-- the command and the name as one word, character by character, and nothing that it would act on.
pub shell_words-hash_command :
    (path : VfsPath)
    → shell_words (hash_command path) ≡ some (codes "xxhsum" ∷ codes "-H1" ∷ codes "--" ∷ path ∷ [])
unfolding words_from hash_command shell_quote
shell_words-hash_command path = rw (words_from-replace_char path [] [] [] refl, append-nil) refl
