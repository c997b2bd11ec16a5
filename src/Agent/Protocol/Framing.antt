-- ===== src/Agent/Protocol/Framing.antt =====
-- crates/agent-linux/src/protocol.rs: the writing and the reading of one string.
use pfnc.Prelude.{
  ℕ, ◌%◌, ◌^◌, ◌<◌, ◌≡◌, ◌∙◌, refl, ap, true, some, List, [], ◌∷◌, ◌++◌, append_assoc, append-nil,
  subst, Str, length, length-append, take, drop, leb, arith,
}
use pfnc.Effect.{pure, ok, then_run}
use pfnc.Agent.{Utf8, Stream}
use pfnc.Agent.Protocol.{
  to_le_bytes, from_le_bytes, read_exact, read_u8, read_u32, read_bytes, write_bytes, write_u32,
  write_string, read_string,
}

-- A stream that has `bytes` still to come, and the same with other bytes.
abbrev pub with_incoming : Stream → List ℕ → Stream
with_incoming s bytes = record s { incoming = bytes }

pub from_le_bytes-to_le_bytes : (v : ℕ) → v < 2 ^ 32 → from_le_bytes (to_le_bytes v) ≡ v
unfolding from_le_bytes to_le_bytes
from_le_bytes-to_le_bytes v h = omega arith

take-append : (xs ys : List ℕ) → take (length xs) (xs ++ ys) ≡ xs
take-append [] ys = refl
take-append (x ∷ xs) ys = ap (x ∷◌) (take-append xs ys)

drop-append : (xs ys : List ℕ) → drop (length xs) (xs ++ ys) ≡ ys
drop-append [] ys = refl
drop-append (x ∷ xs) ys = drop-append xs ys

-- What `write_bytes` sends for `bytes`.
abbrev pub framed : List ℕ → List ℕ
framed bytes = to_le_bytes (length bytes % 2 ^ 32) ++ bytes

module _ {D : Type 0} where
  pub read_exact-append :
      (xs ys : List ℕ) (s : Stream) (d : D)
      → read_exact (length xs) (with_incoming s (xs ++ ys), d) ≡ (ok xs, (with_incoming s ys, d))
  read_exact-append xs ys s d =
      let all : leb (length xs) (length (xs ++ ys)) ≡ true =
        rw (length-append xs ys) (ground arith) in
      rw (all, take-append xs ys, drop-append xs ys) refl

  pub read_u8-cons :
      (b : ℕ) (rest : List ℕ) (s : Stream) (d : D)
      → read_u8 (with_incoming s (b ∷ rest), d) ≡ (ok b, (with_incoming s rest, d))
  unfolding read_u8 from_le_bytes
  read_u8-cons b rest s d =
      ap (λ o. then_run o (λ buf. pure (from_le_bytes buf))) (read_exact-append (b ∷ []) rest s d)
      ∙ ap (λ n. (ok n, (with_incoming s rest, d))) (omega arith)

  pub read_u32-to_le_bytes :
      (v : ℕ) (rest : List ℕ) (s : Stream) (d : D)
      → v < 2 ^ 32
      → read_u32 (with_incoming s (to_le_bytes v ++ rest), d) ≡ (ok v, (with_incoming s rest, d))
  unfolding read_u32 to_le_bytes
  read_u32-to_le_bytes v rest s d h =
      ap (λ o. then_run o (λ buf. pure (from_le_bytes buf)))
        (read_exact-append (to_le_bytes v) rest s d)
      ∙ ap (λ n. (ok n, (with_incoming s rest, d))) (from_le_bytes-to_le_bytes v h)

  pub read_bytes-framed :
      (bytes rest : List ℕ) (s : Stream) (d : D)
      → length bytes < 2 ^ 32
      → read_bytes (with_incoming s (to_le_bytes (length bytes % 2 ^ 32) ++ (bytes ++ rest)), d)
        ≡ (ok bytes, (with_incoming s rest, d))
  unfolding read_bytes
  read_bytes-framed bytes rest s d h =
      let kept : length bytes % 2 ^ 32 ≡ length bytes = omega arith in
      rw (kept, read_u32-to_le_bytes (length bytes) (bytes ++ rest) s d h)
        (read_exact-append bytes rest s d)

  pub write_bytes-framed :
      (bytes : List ℕ) (s : Stream) (d : D)
      → write_bytes bytes (s, d) ≡ (ok tt, (record s { sent = s.sent ++ framed bytes }, d))
  unfolding write_bytes write_u32
  write_bytes-framed bytes s d =
      ap (λ out. (ok tt, (record s { sent = out }, d))) (append_assoc s.sent _ bytes)

  module _ (utf8 : Utf8) (decodes : (s : Str) → utf8.from_utf8 (utf8.as_bytes s) ≡ some s) where
    pub read_string-framed :
        (t : Str) (rest : List ℕ) (s : Stream) (d : D)
        → length (utf8.as_bytes t) < 2 ^ 32
        → read_string utf8 (with_incoming s (framed (utf8.as_bytes t) ++ rest), d)
          ≡ (ok t, (with_incoming s rest, d))
    unfolding read_string
    read_string-framed t rest s d h =
        let regrouped =
          append_assoc (to_le_bytes (length (utf8.as_bytes t) % 2 ^ 32)) (utf8.as_bytes t) rest in
        rw (regrouped, read_bytes-framed (utf8.as_bytes t) rest s d h, then_run, decodes t) refl

    pub read_string-all :
        (t : Str) (s : Stream) (d : D)
        → length (utf8.as_bytes t) < 2 ^ 32
        → read_string utf8 (with_incoming s (framed (utf8.as_bytes t)), d)
          ≡ (ok t, (with_incoming s [], d))
    read_string-all t s d h =
        subst (λ i. read_string utf8 (with_incoming s i, d) ≡ (ok t, (with_incoming s [], d)))
          (append-nil (framed (utf8.as_bytes t))) (read_string-framed t [] s d h)

    -- What `write_string` sends, `read_string` at the other end reads as the same text, and leaves what comes
    -- after it. The text has fewer than 2^32 bytes, and `from_utf8` decodes `as_bytes`.
    pub write_string-read_string :
        (t : Str) (s : Stream) (d : D)
        → length (utf8.as_bytes t) < 2 ^ 32
        → (bytes : List ℕ) × (write_string utf8 t (s, d)
            ≡ (ok tt, (record s { sent = s.sent ++ bytes }, d)))
          × ((rest : List ℕ)
              → read_string utf8 (with_incoming s (bytes ++ rest), d)
                ≡ (ok t, (with_incoming s rest, d)))
    unfolding write_string
    write_string-read_string t s d h = (
      framed (utf8.as_bytes t),
      write_bytes-framed (utf8.as_bytes t) s d,
      λ rest. read_string-framed t rest s d h,
    )
