-- ===== src/Transport/Quic.antt =====
-- crates/core/src/transport.rs, `ProgressIo` and `QuicSideTransport`.
use pfnc.Prelude.{ℕ, zero, suc, ◌≡◌, refl, true, List, ◌∷◌}
use pfnc.Effect.{err, out_of_fuel}
use pfnc.Vfs.Interface.{Reader, Writer}
use pfnc.Job.{Env}
use pfnc.Transport.{write_all, progress_writer, progress_reader, cancelled_io_error}

-- Where `P` holds the token is set, and asking changes that no more.
pub record StaysCancelled {W : Type 0} (env : Env W) (P : W → Type 0) : Type 0 where
  pub set : (w : W) → P w → (env.is_cancelled w).0 ≡ true
  pub stays : (w : W) → P w → P (env.is_cancelled w).1

module _ {W : Type 0} (env : Env W) (P : W → Type 0) (c : StaysCancelled env P) where
  write-cancelled :
      (inner : Writer W) (buf : List ℕ) (w : W)
      → P w
      → (progress_writer env inner).write buf w ≡ (err cancelled_io_error, (env.is_cancelled w).1)
  unfolding progress_writer
  write-cancelled inner buf w h = rw (c.set w h)

  -- A `read` of `ProgressIo` fails at once, with no read of the file below.
  pub read-cancelled :
      (inner : Reader W) (size : ℕ) (w : W)
      → P w
      → (progress_reader env inner).read size w ≡ (err cancelled_io_error, (env.is_cancelled w).1)
  unfolding progress_reader
  read-cancelled inner size w h = rw (c.set w h)

  -- A cancelled token makes each `write` of `ProgressIo` fail as interrupted, which `write_all` takes
  -- for a reason to try again: whatever the writer below, a `write_all` of some bytes uses up any fuel.
  pub write_all-cancelled :
      (inner : Writer W) (fuel : ℕ) (b : ℕ) (bs : List ℕ) (w : W)
      → P w
      → (write_all fuel (progress_writer env inner) (b ∷ bs) w).0 ≡ out_of_fuel
  unfolding write_all
  write_all-cancelled inner zero b bs w h = refl
  write_all-cancelled inner (suc fuel) b bs w h =
      rw (write-cancelled inner (b ∷ bs) w h, write_all)
        (write_all-cancelled inner fuel b bs (env.is_cancelled w).1 (c.stays w h))
