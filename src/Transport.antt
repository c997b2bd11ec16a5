-- ===== src/Transport.antt =====
-- crates/core/src/transport.rs: how the bytes of one file move. `write_all` is that of `std::io`, a
-- loop that takes fuel, as does the loop over the chunks.
pub mod Pipe
pub mod Stream
pub mod Quic
pub mod Count
mod Tests
use pfnc.Prelude.{
  ℕ, zero, suc, ◌*◌, ◌≡◌, Bool, true, false, Option, none, some, List, [], ◌∷◌, length, drop, codes,
  ◌==◌, if◌then◌else◌,
}
use pfnc.Effect.{
  M, pure, fail, exhausted, map_err, attempt, total, effect, then_run, ok, err, out_of_fuel, Result,
  ◌>>=◌, ◌>>◌,
}
use pfnc.Vfs.{
  VfsPath, VfsError, io, IoError, IoKind, kind_interrupted, kind_other, kind_write_zero, JobError,
  cancelled, vfs_error, Location, local, remote, archive,
}
use pfnc.Vfs.Interface.{Vfs, Reader, Writer, RemoteFileAgent}
use pfnc.Job.{JobProgress, Env, update, report_now, add_bytes, add_file}

abbrev pub copy_chunk_size : ℕ
copy_chunk_size = 256 * 1024

-- `VfsError::from`, and then the `From` of `JobError`.
abbrev pub io_failure : IoError → JobError
io_failure e = vfs_error (io e)

abbrev write_zero : IoError
write_zero = record { error_kind = kind_write_zero; message = codes "failed to write whole buffer" }

abbrev pub is_interrupted : IoKind → Bool
is_interrupted kind_interrupted = true
is_interrupted _ = false

pub record Transport (W : Type 0) : Type 0 where
  pub transfer : Vfs W → VfsPath → Vfs W → VfsPath → Option ℕ → M W JobError (Unit {0})

module _ {W : Type 0} where
  -- `Write::write_all` after a `write` of `b ∷ bs`, where `again` is the next turn of its loop.
  unfoldable pub after_write :
      (List ℕ → M W IoError (Unit {0}))
      → ℕ
      → List ℕ
      → Result IoError ℕ × W
      → Result IoError (Unit {0}) × W
  after_write again b bs (ok zero, w) = fail write_zero w
  after_write again b bs (ok (suc k), w) = again (drop k bs) w
  after_write again b bs (err e, w) = elim (is_interrupted e.error_kind) [
    | true ↦ again (b ∷ bs) w
    | false ↦ fail e w
  ]
  after_write again b bs (out_of_fuel, w) = exhausted w

  -- `Write::write_all`: an interrupted write is tried again.
  unfoldable pub write_all : ℕ → Writer W → List ℕ → M W IoError (Unit {0})
  unfolding after_write
  write_all zero writer buf = exhausted
  write_all (suc fuel) writer [] = pure tt
  write_all (suc fuel) writer (b ∷ bs) =
      λ w. after_write (write_all fuel writer) b bs (writer.write (b ∷ bs) w)

abbrev pub cancelled_io_error : IoError
cancelled_io_error = record { error_kind = kind_interrupted; message = codes "cancelled" }

module _ {W : Type 0} (env : Env W) where
  -- `progress.bytes_done += n; report(progress.clone())`
  abbrev pub advance : ℕ → W → W
  advance n w = report_now env (update env (add_bytes n) w)

  abbrev advance_if_some : ℕ → M W IoError (Unit {0})
  advance_if_some zero = pure tt
  advance_if_some (suc n) = effect (advance (suc n))

  -- `ProgressIo`, as a `Write` and as a `Read`.
  unfoldable pub progress_writer : Writer W → Writer W
  progress_writer inner = record {
    write = λ buf. do
      stop ← total env.is_cancelled
      elim stop [
        | true ↦ fail cancelled_io_error
        | false ↦ inner.write buf >>= λ n. advance_if_some n >> pure n
      ];
    flush = inner.flush;
  }

  unfoldable pub progress_reader : Reader W → Reader W
  progress_reader inner = record {
    read = λ size. do
      stop ← total env.is_cancelled
      elim stop [
        | true ↦ fail cancelled_io_error
        | false ↦ inner.read size >>= λ bytes. advance_if_some (length bytes) >> pure bytes
      ];
  }

  -- What the loop of `VfsStreamTransport` does with what it has read; `rest` is the next round.
  copy_chunk : ℕ → Writer W → M W JobError (Unit {0}) → List ℕ → M W JobError (Unit {0})
  unfolding write_all
  copy_chunk retries writer rest [] = pure tt
  copy_chunk retries writer rest (b ∷ bs) = do
    map_err io_failure (write_all retries writer (b ∷ bs))
    effect (advance (length (b ∷ bs)))
    rest

  -- The loop. `retries` is the fuel of each `write_all`.
  unfoldable pub stream_loop : ℕ → ℕ → Reader W → Writer W → M W JobError (Unit {0})
  unfolding copy_chunk
  stream_loop retries zero reader writer = exhausted
  stream_loop retries (suc rounds) reader writer = do
    stop ← total env.is_cancelled
    elim stop [
      | true ↦ fail cancelled
      | false ↦
          map_err io_failure (reader.read copy_chunk_size)
          >>= copy_chunk retries writer (stream_loop retries rounds reader writer)
    ]

  -- `VfsStreamTransport::transfer`, without its log line.
  unfoldable pub stream_transfer :
      ℕ → ℕ → Vfs W → VfsPath → Vfs W → VfsPath → Option ℕ → M W JobError (Unit {0})
  unfolding stream_loop
  stream_transfer retries rounds src src_path dst dst_path mode = do
    reader ← map_err vfs_error (src.open_read src_path)
    writer ← map_err vfs_error (dst.create_write dst_path mode)
    stream_loop retries rounds reader writer
    map_err io_failure writer.flush

  unfoldable pub vfs_stream_transport : ℕ → ℕ → Transport W
  unfolding stream_transfer
  vfs_stream_transport retries rounds = record { transfer = stream_transfer retries rounds }

  -- The `match result` that ends `QuicSideTransport::transfer`.
  settle : Result JobError (Unit {0}) → M W JobError (Unit {0})
  settle (ok _) = effect (λ w. report_now env (update env add_file w))
  settle (err e) = do
    stop ← total env.is_cancelled
    elim stop [ true ↦ fail cancelled | false ↦ fail e ]
  settle out_of_fuel = exhausted

  -- The agent's call, with the side that is local wrapped.
  agent_call :
      RemoteFileAgent W
      → Bool
      → Vfs W
      → VfsPath
      → Vfs W
      → VfsPath
      → Option ℕ
      → W
      → Result JobError (Result JobError (Unit {0})) × W
  unfolding progress_writer progress_reader
  agent_call agent true src src_path dst dst_path mode = do
    writer ← map_err vfs_error (dst.create_write dst_path mode)
    attempt (agent.read_file src_path (progress_writer writer) >>= λ _. pure tt)
  agent_call agent false src src_path dst dst_path mode = do
    reader ← map_err vfs_error (src.open_read src_path)
    attempt (agent.write_file dst_path mode (progress_reader reader))

  -- `QuicSideTransport::transfer`, without its log line.
  unfoldable pub quic_transfer :
      RemoteFileAgent W
      → Bool
      → Vfs W
      → VfsPath
      → Vfs W
      → VfsPath
      → Option ℕ
      → M W JobError (Unit {0})
  unfolding agent_call settle
  quic_transfer agent remote_is_src src src_path dst dst_path mode = do
    stop ← total env.is_cancelled
    elim stop [
      | true ↦ fail cancelled
      | false ↦ agent_call agent remote_is_src src src_path dst dst_path mode >>= settle
    ]

  unfoldable pub quic_side_transport : RemoteFileAgent W → Bool → Transport W
  unfolding quic_transfer
  quic_side_transport agent remote_is_src = record { transfer = quic_transfer agent remote_is_src }

  -- The transport where a fast channel was asked for.
  unfoldable pub or_stream : ℕ → ℕ → Bool → Option (RemoteFileAgent W) × W → Transport W × W
  unfolding vfs_stream_transport quic_side_transport
  or_stream retries rounds remote_is_src (some agent, w) =
      (quic_side_transport agent remote_is_src, w)
  or_stream retries rounds remote_is_src (none, w) = (vfs_stream_transport retries rounds, w)

  unfoldable pub negotiate_enabled :
      ℕ → ℕ → Location → Location → Vfs W → Vfs W → W → Transport W × W
  unfolding or_stream
  negotiate_enabled retries rounds local (remote _) src dst w =
      or_stream retries rounds false (dst.fast_transport w)
  negotiate_enabled retries rounds (remote _) local src dst w =
      or_stream retries rounds true (src.fast_transport w)
  negotiate_enabled retries rounds _ _ src dst w = (vfs_stream_transport retries rounds, w)

  unfoldable pub negotiate_transport :
      ℕ → ℕ → Location → Location → Vfs W → Vfs W → Bool → W → Transport W × W
  unfolding negotiate_enabled
  negotiate_transport retries rounds src_location dst_location src dst true w =
      negotiate_enabled retries rounds src_location dst_location src dst w
  negotiate_transport retries rounds src_location dst_location src dst false w =
      (vfs_stream_transport retries rounds, w)
