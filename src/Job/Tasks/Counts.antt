-- ===== src/Job/Tasks/Counts.antt =====
-- crates/core/src/job.rs and transport.rs: how many files a copy says it has done.
use pfnc.Prelude.{
  ℕ, ◌+◌, ◌*◌, ◌%◌, ◌<◌, ◌∙◌, ◌≡◌, sym, ap, Bool, true, false, none, some, List, [], ◌∷◌, length,
  arith, filter, if◌then◌else◌, Bool-cases, inl, inr,
}
use pfnc.Prelude.Words.{word_mod, add_word}
use pfnc.Effect.{ok, err, for_each, ok_of_then_run, err-ne-ok, map_err_run_state, ignore_run_state}
use pfnc.Vfs.{JobError, cancelled, vfs_error, EntryKind, file, dir, other, symlink}
use pfnc.Vfs.Interface.{Vfs, RemoteFileAgent}
use pfnc.Job.{Env, update, now_at}
use pfnc.Job.Walk.{CopyItem}
use pfnc.Job.Item.{apply_by_kind, transfer_item, finish_file}
use pfnc.Job.Tasks.{copy_one}
use pfnc.Transport.{Transport, vfs_stream_transport, quic_side_transport}
use pfnc.Transport.Count.{files_done, CountsBy, IsCell, IsQuiet, IsQuietAgent}
use pfnc.Transport.Count.Streams.{vfs_stream_transport-CountsBy}
use pfnc.Transport.Count.Agent.{quic_side_transport-CountsBy}

-- The entries whose bytes are transferred: no directories, and no links with a readable target.
abbrev pub is_transferred : EntryKind → Bool
is_transferred dir = false
is_transferred (symlink (some _)) = false
is_transferred _ = true

abbrev pub transfers : List CopyItem → ℕ
transfers plan = length (filter (λ item. is_transferred item.meta.kind) plan)

module _ {W : Type 0} (env : Env W) where
  copy_one_stops :
      (src dst : Vfs W) (t : Transport W) (i : CopyItem) (w : W)
      → (env.is_cancelled w).0 ≡ true
      → copy_one env src dst t i tt w ≡ (err cancelled, (env.is_cancelled w).1)
  unfolding copy_one
  copy_one_stops src dst t i w stop = rw stop

  copy_one_runs :
      (src dst : Vfs W) (t : Transport W) (i : CopyItem) (w : W)
      → (env.is_cancelled w).0 ≡ false
      → copy_one env src dst t i tt w
        ≡ apply_by_kind env src dst t i i.meta.kind
            (update env (now_at i.destination) (env.is_cancelled w).1)
  unfolding copy_one
  copy_one_runs src dst t i w go = rw go

  module _ (cell : IsCell env) (src dst : Vfs W) (quiet : IsQuiet env dst) (t : Transport W) (n : ℕ)
      (counts : CountsBy env n src dst t) where
    finish_file_count : (v : W) → files_done env (finish_file env v) ≡ add_word (files_done env v) 1
    finish_file_count v = ap (λ p. p.files_done) (cell.load-report _ _ ∙ cell.load-store _ _)

    transfer_item_count :
        (i : CopyItem) (w : W)
        → (transfer_item env src dst t i w).0 ≡ ok tt
        → files_done env w < word_mod
        → files_done env (transfer_item env src dst t i w).1
          ≡ (files_done env w + (n + 1)) % word_mod
    unfolding transfer_item
    transfer_item_count i w done small =
        let (_, moved, same) =
          ok_of_then_run (t.transfer src i.source dst i.destination i.meta.permissions w) _ done in
        rw same (
          omega (
            arith,
            finish_file_count (t.transfer src i.source dst i.destination i.meta.permissions w).1,
            counts i.source i.destination i.meta.permissions w small moved,
          ))

    kept :
        (w v : W)
        → files_done env w < word_mod
        → env.load v ≡ env.load w
        → files_done env v ≡ (files_done env w + 0) % word_mod
    kept w v small same = omega (arith, ap (λ p. p.files_done) same)

    apply_by_kind_count :
        (i : CopyItem) (w : W) (k : EntryKind)
        → (apply_by_kind env src dst t i k w).0 ≡ ok tt
        → files_done env w < word_mod
        → files_done env (apply_by_kind env src dst t i k w).1
          ≡ (files_done env w + (if is_transferred k then n + 1 else 0)) % word_mod
    unfolding apply_by_kind
    apply_by_kind_count i w dir done small = kept w _ small (
        ap env.load (map_err_run_state vfs_error (dst.mkdir i.destination i.meta.permissions w))
        ∙ quiet.load-mkdir _ _ w)
    apply_by_kind_count i w (symlink (some q)) done small = kept w _ small (
        ap env.load (ignore_run_state JobError (dst.symlink q i.destination w))
        ∙ quiet.load-symlink _ _ w)
    apply_by_kind_count i w (symlink none) done small = transfer_item_count i w done small
    apply_by_kind_count i w file done small = transfer_item_count i w done small
    apply_by_kind_count i w other done small = transfer_item_count i w done small

    copy_one_count :
        (i : CopyItem) (w : W)
        → (copy_one env src dst t i tt w).0 ≡ ok tt
        → files_done env w < word_mod
        → files_done env (copy_one env src dst t i tt w).1
          ≡ (files_done env w + (if is_transferred i.meta.kind then n + 1 else 0)) % word_mod
    copy_one_count i w done small = elim (Bool-cases (env.is_cancelled w).0) [
      | inl stop ↦
          absurd (err-ne-ok (sym (ap (λ o. o.0) (copy_one_stops src dst t i w stop)) ∙ done))
      | inr go ↦
          let same = copy_one_runs src dst t i w go in
          let v = update env (now_at i.destination) (env.is_cancelled w).1 in
          let there : files_done env v ≡ files_done env w =
            ap (λ p. p.files_done) (cell.load-store _ _)
            ∙ ap (λ p. p.files_done) (cell.load-is_cancelled w) in
          rw same (
            rw (← there) (
              apply_by_kind_count i v i.meta.kind (sym (ap (λ o. o.0) same) ∙ done)
                (omega (arith, there))))
    ]

    -- After a copy loop that succeeds, `files_done` has grown by `n + 1` for each entry transferred.
    pub files_done-copy_loop :
        (plan : List CopyItem) (w : W)
        → (for_each (copy_one env src dst t) plan tt w).0 ≡ ok tt
        → files_done env w < word_mod
        → files_done env (for_each (copy_one env src dst t) plan tt w).1
          ≡ (files_done env w + (n + 1) * transfers plan) % word_mod
    unfolding for_each
    files_done-copy_loop [] w done small = omega arith
    files_done-copy_loop (i ∷ plan) w done small =
        let (_, first, same) = ok_of_then_run (copy_one env src dst t i tt w) _ done in
        let v = (copy_one env src dst t i tt w).1 in
        let here = copy_one_count i w first small in
        let rest =
          files_done-copy_loop plan v (sym (ap (λ o. o.0) same) ∙ done) (omega (arith, here)) in
        rw same (elim (Bool-cases (is_transferred i.meta.kind)) [
          | inl yes' ↦ rw yes' (omega (arith, rest, (rw yes' at here)))
          | inr no' ↦ rw no' (omega (arith, rest, (rw no' at here)))
        ])

  module _ (cell : IsCell env) (src dst : Vfs W) (quiet_src : IsQuiet env src)
      (quiet_dst : IsQuiet env dst) where
    -- Two copies of one plan, one through the streams of the backends and one through an agent, that
    -- start with no files done and succeed: the first ends at the number of files that it transferred,
    -- and the second at twice that number.
    pub files_done-copy :
        (retries rounds : ℕ) (agent : RemoteFileAgent W) (remote_is_src : Bool)
        (plan : List CopyItem) (w : W)
        → IsQuietAgent env agent
        → files_done env w ≡ 0
        → (for_each (copy_one env src dst (vfs_stream_transport env retries rounds)) plan tt w).0
          ≡ ok tt
        → (for_each
            (copy_one env src dst (quic_side_transport env agent remote_is_src))
            plan
            tt
            w).0
          ≡ ok tt
        → (files_done env
              (for_each
                (copy_one env src dst (vfs_stream_transport env retries rounds))
                plan
                tt
                w).1
            ≡ transfers plan % word_mod)
          × (files_done env
                (for_each
                  (copy_one env src dst (quic_side_transport env agent remote_is_src))
                  plan
                  tt
                  w).1
              ≡ 2 * transfers plan % word_mod)
    files_done-copy retries rounds agent remote_is_src plan w quiet fresh streamed sent = (
      omega (
        arith,
        files_done-copy_loop cell src dst quiet_dst (vfs_stream_transport env retries rounds) 0
            (vfs_stream_transport-CountsBy env cell src dst quiet_src quiet_dst retries rounds) plan
            w streamed (omega arith),
      ),
      omega (
        arith,
        files_done-copy_loop cell src dst quiet_dst (quic_side_transport env agent remote_is_src) 1
            (quic_side_transport-CountsBy env cell src dst quiet_src quiet_dst agent quiet
              remote_is_src)
            plan w sent (omega arith),
      ),
    )
