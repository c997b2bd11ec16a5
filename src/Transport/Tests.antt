-- ===== src/Transport/Tests.antt =====
-- The theorems on transports in the world of Fixtures.antt.
use pfnc.Prelude.{
  ℕ, suc, ◌≡◌, refl, true, false, List, [], ◌∷◌, length, take, arith, take-append-drop,
}
use pfnc.Effect.{out_of_fuel}
use pfnc.Fixtures.{World, test_env, test_reader, test_writer, fresh_world, Stopped, test_stays}
use pfnc.Transport.{stream_loop, write_all, progress_writer, copy_chunk_size}
use pfnc.Transport.Pipe.{IsPipe}
use pfnc.Transport.Stream.{Copied, stream_loop-Copied}
use pfnc.Transport.Quic.{write_all-cancelled}

abbrev Going : World → Type 0
Going w = w.stop ≡ false

take-nil : (bytes : List ℕ) (n : ℕ) → take (suc n) bytes ≡ [] → bytes ≡ []
take-nil [] n h = refl
take-nil (b ∷ bs) n h = cc

take-length : (bs : List ℕ) → take (length bs) bs ≡ bs
take-length [] = refl
take-length (b ∷ bs) = cc (take-length bs)

abbrev tail_length : List ℕ → ℕ
tail_length [] = 0
tail_length (_ ∷ bs) = length bs

test_pipe : IsPipe test_env test_reader test_writer Going (λ w. w.pending) (λ w. w.stored)
test_pipe = record {
  runs = λ w h. h;
  asks = λ w h. record { holds = h; same_pending = refl; same_stored = refl; same_progress = refl };
  got = λ w. take copy_chunk_size w.pending;
  read_ok = λ w h. refl;
  read_holds = λ w h. h;
  read_progress = λ w h. refl;
  read_pending = λ w h. take-append-drop copy_chunk_size w.pending;
  read_stored = λ w h. refl;
  read_end = λ w h e. take-nil w.pending 262143 e;
  taken = λ buf w. tail_length buf;
  write_ok = λ b bs w h. refl;
  write_holds = λ b bs w h. h;
  write_progress = λ b bs w h. refl;
  write_pending = λ b bs w h. refl;
  write_stored = λ b bs w h. rw take-length;
  load-store = λ p w. refl;
  load-report = λ p w. refl;
  store_keeps = λ p w h. (h, refl, refl);
  report_keeps = λ p w h. (h, refl, refl);
}

stream_loop-Copied_example :
    Copied test_env test_reader test_writer Going
      (λ w. w.pending)
      (λ w. w.stored)
      test_pipe
      (fresh_world (7 ∷ 8 ∷ []) false)
      (stream_loop test_env 3 3 test_reader test_writer (fresh_world (7 ∷ 8 ∷ []) false))
stream_loop-Copied_example =
    stream_loop-Copied test_env test_reader test_writer Going (λ w. w.pending) (λ w. w.stored)
      test_pipe 3 3 (fresh_world (7 ∷ 8 ∷ []) false) refl (omega arith) (omega arith) (omega arith)

copies_two_bytes :
    (stream_loop test_env 3 3 test_reader test_writer (fresh_world (7 ∷ 8 ∷ []) false)).1.stored
    ≡ 7 ∷ 8 ∷ []
unfolding stream_loop
copies_two_bytes = refl

write_all-cancelled_example :
    (write_all 50 (progress_writer test_env test_writer) (7 ∷ []) (fresh_world [] true)).0
    ≡ out_of_fuel
write_all-cancelled_example =
    write_all-cancelled test_env Stopped test_stays test_writer 50 7 [] (fresh_world [] true) refl
