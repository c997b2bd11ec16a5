-- ===== src/Transport/Pipe.antt =====
-- crates/core/src/transport.rs: two streams that neither fail nor are cancelled, and the writing of one
-- buffer with `std::io::Write::write_all`.
use pfnc.Prelude.{
  ℕ, zero, suc, ◌<◌, ◌∙◌, ◌≡◌, refl, ap, false, List, [], ◌∷◌, ◌++◌, length, take, drop, append-nil,
  append_assoc, arith, take-append-drop, length-drop,
}
use pfnc.Effect.{ok, Result}
use pfnc.Vfs.{IoError}
use pfnc.Vfs.Interface.{Reader, Writer}
use pfnc.Job.{JobProgress, Env}
use pfnc.Transport.{write_all, copy_chunk_size}

-- A step keeps what the copy is about, and the invariant `P`.
pub record Keeps {W : Type 0} (env : Env W) (P : W → Type 0) (pending stored : W → List ℕ)
    (w w' : W) : Type 0 where
  pub holds : P w'
  pub same_pending : pending w' ≡ pending w
  pub same_stored : stored w' ≡ stored w
  pub same_progress : env.load w' ≡ env.load w

-- A reader of the bytes `pending`, which ends only when they are used up, and a writer that adds to
-- `stored` at least one of the bytes that it is given; neither fails while `P` holds, and `P` goes on.
pub record IsPipe {W : Type 0} (env : Env W) (reader : Reader W) (writer : Writer W)
    (P : W → Type 0) (pending stored : W → List ℕ) : Type 0 where
  pub runs : (w : W) → P w → (env.is_cancelled w).0 ≡ false
  pub asks : (w : W) → P w → Keeps env P pending stored w (env.is_cancelled w).1
  pub got : W → List ℕ
  pub read_ok : (w : W) → P w → (reader.read copy_chunk_size w).0 ≡ ok (got w)
  pub read_holds : (w : W) → P w → P (reader.read copy_chunk_size w).1
  pub read_progress : (w : W) → P w → env.load (reader.read copy_chunk_size w).1 ≡ env.load w
  pub read_pending : (w : W) → P w → got w ++ pending (reader.read copy_chunk_size w).1 ≡ pending w
  pub read_stored : (w : W) → P w → stored (reader.read copy_chunk_size w).1 ≡ stored w
  pub read_end : (w : W) → P w → got w ≡ [] → pending w ≡ []
  pub taken : List ℕ → W → ℕ
  pub write_ok :
      (b : ℕ) (bs : List ℕ) (w : W)
      → P w
      → (writer.write (b ∷ bs) w).0 ≡ ok (suc (taken (b ∷ bs) w))
  pub write_holds : (b : ℕ) (bs : List ℕ) (w : W) → P w → P (writer.write (b ∷ bs) w).1
  pub write_progress :
      (b : ℕ) (bs : List ℕ) (w : W) → P w → env.load (writer.write (b ∷ bs) w).1 ≡ env.load w
  pub write_pending :
      (b : ℕ) (bs : List ℕ) (w : W) → P w → pending (writer.write (b ∷ bs) w).1 ≡ pending w
  pub write_stored :
      (b : ℕ) (bs : List ℕ) (w : W)
      → P w
      → stored (writer.write (b ∷ bs) w).1 ≡ stored w ++ (b ∷ take (taken (b ∷ bs) w) bs)
  pub load-store : (p : JobProgress) (w : W) → env.load (env.store p w) ≡ p
  pub load-report : (p : JobProgress) (w : W) → env.load (env.report p w) ≡ env.load w
  pub store_keeps :
      (p : JobProgress) (w : W)
      → P w
      → P (env.store p w)
        × (pending (env.store p w) ≡ pending w)
        × (stored (env.store p w) ≡ stored w)
  pub report_keeps :
      (p : JobProgress) (w : W)
      → P w
      → P (env.report p w)
        × (pending (env.report p w) ≡ pending w)
        × (stored (env.report p w) ≡ stored w)

module _ {W : Type 0} (env : Env W) (reader : Reader W) (writer : Writer W) (P : W → Type 0)
    (pending stored : W → List ℕ) (pipe : IsPipe env reader writer P pending stored) where
  -- What `write_all` leaves behind.
  pub record Wrote (buf : List ℕ) (w : W) (o : Result IoError (Unit {0}) × W) : Type 0 where
    pub done : o.0 ≡ ok tt
    pub wrote_holds : P o.1
    pub all_stored : stored o.1 ≡ stored w ++ buf
    pub left_pending : pending o.1 ≡ pending w
    pub left_progress : env.load o.1 ≡ env.load w

  -- One call of `write`, and then the rest.
  Wrote-step :
      (b : ℕ) (bs : List ℕ) (w : W) (o : Result IoError (Unit {0}) × W)
      → P w
      → Wrote (drop (pipe.taken (b ∷ bs) w) bs) (writer.write (b ∷ bs) w).1 o
      → Wrote (b ∷ bs) w o
  Wrote-step b bs w o h next = record {
    done = next.done;
    wrote_holds = next.wrote_holds;
    all_stored =
        next.all_stored
        ∙ rw (pipe.write_stored b bs w h, append_assoc)
            (ap (λ t. stored w ++ (b ∷ t)) (take-append-drop (pipe.taken (b ∷ bs) w) bs));
    left_pending = next.left_pending ∙ pipe.write_pending b bs w h;
    left_progress = next.left_progress ∙ pipe.write_progress b bs w h;
  }

  pub write_all_lem :
      (fuel : ℕ) (buf : List ℕ) (w : W)
      → P w
      → length buf < fuel
      → Wrote buf w (write_all fuel writer buf w)
  unfolding write_all
  write_all_lem zero buf w h enough = absurd (omega arith)
  write_all_lem (suc fuel) [] w h enough = record {
    done = refl;
    wrote_holds = h;
    all_stored = rw append-nil;
    left_pending = refl;
    left_progress = refl;
  }
  write_all_lem (suc fuel) (b ∷ bs) w h enough =
      rw (pipe.write_ok b bs w h, write_all)
        (Wrote-step b bs w _ h (
          write_all_lem fuel _ _ (pipe.write_holds b bs w h)
            (omega (arith, length-drop (pipe.taken (b ∷ bs) w) bs))))
