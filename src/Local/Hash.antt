-- ===== src/Local/Hash.antt =====
-- crates/vfs-local/src/lib.rs, the loop of `quick_hash`. The crate xxhash-rust is `Hasher`, with states `H`.
use pfnc.Prelude.{ℕ, zero, suc, ◌*◌, List, [], ◌∷◌}
use pfnc.Effect.{M, pure, exhausted, ◌>>=◌}
use pfnc.Vfs.{IoError}
use pfnc.Vfs.Interface.{Reader}

-- `Xxh64`
pub record Hasher (H : Type 0) : Type 0 where
  pub new : ℕ → H
  pub update : H → List ℕ → H
  pub digest : H → ℕ

module _ {W H : Type 0} (xxh64 : Hasher H) (file : Reader W) where
  abbrev pub take_read : (H → M W IoError H) → H → List ℕ → M W IoError H
  take_read again h [] = pure h
  take_read again h (b ∷ bytes) = again (xxh64.update h (b ∷ bytes))

  -- The fuel is one more than the reads that give bytes.
  unfoldable pub hash_loop : ℕ → H → M W IoError H
  hash_loop zero h = exhausted
  hash_loop (suc turns) h = file.read (64 * 1024) >>= take_read (hash_loop turns) h
