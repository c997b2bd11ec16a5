-- ===== src/Job/Manager/Log.antt =====
-- crates/core/src/job.rs, `JobManager`: the events of each job.
use pfnc.Prelude.{
  ℕ, ◌+◌, ◌<◌, ◌≤◌, ◌≡◌, ◌∙◌, refl, ap, sym, subst, Bool, true, false, Bool-cases, inl, inr, Option,
  none, some, List, [], ◌∷◌, All, ◌==◌, ==_iff, Str, arith,
}
use pfnc.Prelude.Words.{word_mod}
use pfnc.Vfs.{VfsError}
use pfnc.Job.{JobProgress}
use pfnc.Job.Manager.{
  JobManager, JobEvent, JobOutcome, progressed, finished, Thread, unstarted, running, ended, Ending,
  Step, spawns, cancels, reaps, reports, ends, Reaches, starts, goes_on, events_of, new_manager,
  spawn, cancel, set_token, reap, send_progress, end_job, outcome_of,
}

abbrev pub IsProgress : JobEvent → Type 0
IsProgress (progressed _ _) = Unit {0}
IsProgress (finished _ _) = ⊥

-- What a job has sent, the newest first, when its thread stands at this point.
abbrev pub Sent : ℕ → Thread → List JobEvent → Type 0
Sent id unstarted events = events ≡ []
Sent id running events = All IsProgress events
Sent id ended events =
    (o : JobOutcome) × (before : List JobEvent) × (events ≡ finished id o ∷ before)
    × All IsProgress before

record Inv (m : JobManager) : Type 0 where
  inv_sent : (id : ℕ) → Sent id (m.threads id) (events_of id m.sent)
  inv_fresh : (id : ℕ) → m.next_id ≤ id → m.threads id ≡ unstarted

starts-Inv : Inv new_manager
unfolding new_manager
starts-Inv = record { inv_sent = λ id. refl; inv_fresh = λ id h. refl }

unstarted-ne-running : unstarted ≡ running → ⊥
unstarted-ne-running h = cc

sent_when :
    (m : JobManager) (id : ℕ) (t : Thread)
    → m.threads id ≡ t
    → Inv m
    → Sent id t (events_of id m.sent)
sent_when m id t stands inv =
    subst (λ t'. Sent id t' (events_of id m.sent)) stands (inv.inv_sent id)

==-comm : (a b : ℕ) (r : Bool) → (a == b) ≡ r → (b == a) ≡ r
==-comm a b true h = ground arith
==-comm a b false h = ground arith

spawn-Inv : (m : JobManager) (name : Str) → m.next_id + 1 < word_mod → Inv m → Inv (spawn name m)
unfolding spawn
spawn-Inv m name small inv = record {
  inv_sent = λ id. elim (Bool-cases (id == m.next_id)) [
    | inl new ↦
        let none_yet =
          sent_when m id unstarted (inv.inv_fresh id (omega (arith, (==_iff id m.next_id).0 new)))
            inv in
        rw (new, none_yet) tt
    | inr old ↦ rw old (inv.inv_sent id)
  ];
  inv_fresh = λ id h.
      let later : m.next_id < id = omega arith in
      let other : (id == m.next_id) ≡ false = ground arith in
      rw other (inv.inv_fresh id (omega arith));
}

send_progress-Inv :
    (m : JobManager) (id : ℕ) (p : JobProgress)
    → m.threads id ≡ running
    → Inv m
    → Inv (send_progress id p m)
unfolding send_progress
send_progress-Inv m id p live inv = record {
  inv_sent = λ id'. elim (Bool-cases (id == id')) [
    | inl same ↦
        let live' : m.threads id' ≡ running = ap m.threads (sym ((==_iff id id').0 same)) ∙ live in
        rw (same, live') (tt, sent_when m id' running live' inv)
    | inr other ↦ rw other (inv.inv_sent id')
  ];
  inv_fresh = inv.inv_fresh;
}

end_job-Inv :
    (describe : VfsError → Str) (m : JobManager) (id : ℕ) (e : Ending)
    → m.threads id ≡ running
    → Inv m
    → Inv (end_job describe id e m)
unfolding end_job
end_job-Inv describe m id e live inv = record {
  inv_sent = λ id'. elim (Bool-cases (id == id')) [
    | inl same ↦
        let live' : m.threads id' ≡ running = ap m.threads (sym ((==_iff id id').0 same)) ∙ live in
        rw (same, ==-comm id id' true same)
          (
            _,
            _,
            ap (λ i. finished i (outcome_of describe e) ∷ events_of id' m.sent)
                ((==_iff id id').0 same),
            sent_when m id' running live' inv,
          )
    | inr other ↦ rw (other, ==-comm id id' false other) (inv.inv_sent id')
  ];
  inv_fresh = λ id' h. elim (Bool-cases (id' == id)) [
    | inl same ↦ absurd (
        unstarted-ne-running
          (sym (inv.inv_fresh id' h) ∙ ap m.threads ((==_iff id' id).0 same) ∙ live))
    | inr other ↦ rw other (inv.inv_fresh id' h)
  ];
}

set_token-Inv : (m : JobManager) (id : ℕ) (label : Option Str) → Inv m → Inv (set_token id label m)
set_token-Inv m id none inv = inv
set_token-Inv m id (some _) inv = record { inv_sent = inv.inv_sent; inv_fresh = inv.inv_fresh }

Step-Inv : (describe : VfsError → Str) {m m' : JobManager} → Step describe m m' → Inv m → Inv m'
unfolding cancel reap
Step-Inv describe (spawns m name small) inv = spawn-Inv m name small inv
Step-Inv describe (cancels m id) inv = set_token-Inv m id (m.labels id) inv
Step-Inv describe (reaps m id _) inv = record { inv_sent = inv.inv_sent; inv_fresh = inv.inv_fresh }
Step-Inv describe (reports m id p live) inv = send_progress-Inv m id p live inv
Step-Inv describe (ends m id e live) inv = end_job-Inv describe m id e live inv

Reaches-Inv : (describe : VfsError → Str) {m : JobManager} → Reaches describe m → Inv m
Reaches-Inv describe starts = starts-Inv
Reaches-Inv describe (goes_on r s) = Step-Inv describe s (Reaches-Inv describe r)

-- In every state that the manager and its threads can reach, however their steps interleave: a job that was
-- not started has sent nothing, a running job only progress, and a job that ended, be it by a panic, has
-- sent exactly one `Finished`, as its last event.
pub Reaches-Sent :
    (describe : VfsError → Str) (m : JobManager) (id : ℕ)
    → Reaches describe m
    → Sent id (m.threads id) (events_of id m.sent)
Reaches-Sent describe m id r = (Reaches-Inv describe r).inv_sent id
