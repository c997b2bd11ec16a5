-- ===== src/Local/Contents.antt =====
-- crates/vfs-local/src/lib.rs, `quick_hash`: what the hash of a file is the hash of.
use pfnc.Prelude.{
  ℕ, zero, suc, ◌+◌, ◌*◌, ◌<◌, ◌≡◌, ◌∙◌, refl, ap, sym, subst, some, Bool, Str, List, [], ◌∷◌, ◌++◌,
  length, arith,
}
use pfnc.Effect.{Result, ok, err, out_of_fuel, then_run, ok-injective, map_err_run}
use pfnc.Vfs.{VfsPath, IoError}
use pfnc.Vfs.Interface.{Reader, PathLib}
use pfnc.Local.Hash.{Hasher, take_read, hash_loop}
use pfnc.Local.{StdFs, map_io_err, quick_hash}

-- A hasher that is fed in pieces is fed their concatenation.
pub record IsStreaming {H : Type 0} (xxh64 : Hasher H) : Type 0 where
  pub joins : (h : H) (a b : List ℕ) → xxh64.update (xxh64.update h a) b ≡ xxh64.update h (a ++ b)
  pub starts : (h : H) → xxh64.update h [] ≡ h

-- `pending` is what is still to be read. A read gives some of it, as much as the reader likes, and nothing only
-- at the end.
pub record IsFile {W : Type 0} (file : Reader W) (pending : W → List ℕ) : Type 0 where
  pub piece : W → List ℕ
  pub reads : (w : W) → (file.read (64 * 1024) w).0 ≡ ok (piece w)
  pub splits : (w : W) → piece w ++ pending (file.read (64 * 1024) w).1 ≡ pending w
  pub ends : (w : W) → piece w ≡ [] → pending w ≡ []

length-append_lem : (a b : List ℕ) → length (a ++ b) ≡ length a + length b
length-append_lem [] b = omega arith
length-append_lem (x ∷ a) b = omega (arith, length-append_lem a b)

module _ {W H : Type 0} (xxh64 : Hasher H) (streaming : IsStreaming xxh64) (file : Reader W)
    (pending : W → List ℕ) (serves : IsFile file pending) where
  hash_after_read :
      (turns : ℕ) (h : H) (o : Result IoError (List ℕ) × W) (piece all : List ℕ)
      → ((h : H) (w : W)
          → length (pending w) < turns
          → (hash_loop xxh64 file turns h w).0 ≡ ok (xxh64.update h (pending w)))
      → o.0 ≡ ok piece
      → piece ++ pending o.1 ≡ all
      → (piece ≡ [] → all ≡ [])
      → length all < suc turns
      → (then_run o (take_read xxh64 file (hash_loop xxh64 file turns) h)).0
        ≡ ok (xxh64.update h all)
  hash_after_read turns h (ok [], w) [] all hyp e split ends enough =
      ap ok (sym (streaming.starts h) ∙ ap (xxh64.update h) (sym (ends refl)))
  hash_after_read turns h (ok [], w) (b ∷ bytes) all hyp e split ends enough = cc
  hash_after_read turns h (ok (b ∷ bytes), w) piece all hyp e split ends enough =
      let same : b ∷ bytes ++ pending w ≡ all =
        subst (λ p. p ++ pending w ≡ all) (sym (ok-injective e)) split in
      let longer = length-append_lem (b ∷ bytes) (pending w) in
      let counted = ap length same in
      hyp (xxh64.update h (b ∷ bytes)) w (omega (arith, enough, longer, counted))
      ∙ ap ok (streaming.joins h (b ∷ bytes) (pending w) ∙ ap (xxh64.update h) same)
  hash_after_read turns h (err e', w) piece all hyp e split ends enough = cc
  hash_after_read turns h (out_of_fuel, w) piece all hyp e split ends enough = cc

  hash_loop_lem :
      (turns : ℕ) (h : H) (w : W)
      → length (pending w) < turns
      → (hash_loop xxh64 file turns h w).0 ≡ ok (xxh64.update h (pending w))
  unfolding hash_loop
  hash_loop_lem zero h w enough = let impossible : ⊥ = omega arith in absurd impossible
  hash_loop_lem (suc turns) h w enough =
      hash_after_read turns h (file.read (64 * 1024) w) (serves.piece w) (pending w)
        (hash_loop_lem turns) (serves.reads w) (serves.splits w) (serves.ends w) enough

-- `open_file` gives a file whose contents are `contents`.
pub record Opens {W : Type 0} (fs : StdFs W) (path : VfsPath) (w : W) (contents : List ℕ)
    : Type 0 where
  pub file : Reader W
  pub pending : W → List ℕ
  pub serves : IsFile file pending
  pub opened : W
  pub opens : fs.open_file path w ≡ (ok file, opened)
  pub whole : pending opened ≡ contents

done_hash :
    {W H : Type 0} (xxh64 : Hasher H) (path : VfsPath) (o : Result IoError H × W) (h : H)
    → o.0 ≡ ok h
    → (then_run (map_err_run (map_io_err path) o) λ h w. (ok (some (xxh64.digest h)), w)).0
      ≡ ok (some (xxh64.digest h))
done_hash xxh64 path (ok h', w) h e = ap (λ k. ok (some (xxh64.digest k))) (ok-injective e)
done_hash xxh64 path (err e', w) h e = cc
done_hash xxh64 path (out_of_fuel, w) h e = cc

-- The hash of a file that can be opened and read is that of its whole contents at once, in whatever pieces the
-- reads return them: `quick_hash` succeeds when its fuel exceeds the length of the file.
pub quick_hash_lem :
    {W H : Type 0} (fs : StdFs W) (paths : PathLib) (name_before : Str → Str → Bool)
    (xxh64 : Hasher H) (turns : ℕ) (path : VfsPath) (w : W) (contents : List ℕ)
    → IsStreaming xxh64
    → Opens fs path w contents
    → length contents < turns
    → (quick_hash fs paths name_before xxh64 turns path w).0
      ≡ ok (some (xxh64.digest (xxh64.update (xxh64.new 0) contents)))
unfolding quick_hash
quick_hash_lem fs paths name_before xxh64 turns path w contents streaming opens enough =
    let hashed =
      hash_loop_lem xxh64 streaming opens.file opens.pending opens.serves turns (xxh64.new 0)
        opens.opened (subst (λ c. length c < turns) (sym opens.whole) enough) in
    rw opens.opens (
      done_hash xxh64 path (hash_loop xxh64 opens.file turns (xxh64.new 0) opens.opened)
        (xxh64.update (xxh64.new 0) contents)
        (hashed ∙ ap (λ c. ok (xxh64.update (xxh64.new 0) c)) opens.whole))
