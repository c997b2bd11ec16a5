-- ===== src/Job/Manager.antt =====
-- crates/core/src/job.rs, `JobManager`: the manager, the threads of its jobs and the channel of events as one
-- state, and what can happen in it as a step relation. `sent` holds the events, the newest first.
mod Log
mod Tests
use pfnc.Prelude.{
  ℕ, zero, suc, ◌+◌, ◌<◌, ◌≡◌, ◌⊎◌, Bool, true, false, Option, none, some, List, [], ◌∷◌, Str,
  codes, ◌==◌, if◌then◌else◌, filter,
}
use pfnc.Prelude.Words.{word_mod, add_word}
use pfnc.Effect.{Result, ok, err, out_of_fuel}
use pfnc.Vfs.{JobError, cancelled, vfs_error, VfsError}
use pfnc.Job.{JobProgress}

pub data JobOutcome : Type 0 where
  completed was_cancelled : JobOutcome
  failed : Str → JobOutcome

pub data JobEvent : Type 0 where
  progressed : ℕ → JobProgress → JobEvent
  finished : ℕ → JobOutcome → JobEvent

abbrev pub job_id : JobEvent → ℕ
job_id (progressed id _) = id
job_id (finished id _) = id

-- How the closure of a job ends: with its result, or in a panic.
pub data Ending : Type 0 where
  returned : Unit {0} → Ending
  failed_with : JobError → Ending
  panicked : Ending

-- `JobOutcome::from`, and `catch_unwind` around it; `describe` is the text of an error.
abbrev pub outcome_of : (VfsError → Str) → Ending → JobOutcome
outcome_of describe (returned _) = completed
outcome_of describe (failed_with cancelled) = was_cancelled
outcome_of describe (failed_with (vfs_error e)) = failed (describe e)
outcome_of describe panicked = failed (codes "job panicked")

pub data Thread : Type 0 where
  unstarted running ended : Thread

pub record JobManager : Type 0 where
  pub next_id : ℕ
  pub labels : ℕ → Option Str
  pub tokens : ℕ → Bool
  pub threads : ℕ → Thread
  pub sent : List JobEvent

unfoldable pub new_manager : JobManager
new_manager = record {
  next_id = 0;
  labels = λ _. none;
  tokens = λ _. false;
  threads = λ _. unstarted;
  sent = [];
}

abbrev pub at {ℓ} : {A : Type ℓ} → ℕ → A → (ℕ → A) → ℕ → A
at id a f i = if i == id then a else f i

-- `spawn`, when the operating system starts the thread; where it does not, `expect` panics, which is the `with_thread` of
-- Main.antt.
unfoldable pub spawn : Str → JobManager → JobManager
spawn label m = record {
  next_id = add_word m.next_id 1;
  labels = at m.next_id (some label) m.labels;
  tokens = at m.next_id false m.tokens;
  threads = at m.next_id running m.threads;
  sent = m.sent;
}

abbrev pub set_token : ℕ → Option Str → JobManager → JobManager
set_token id none m = m
set_token id (some _) m = record m { tokens = at id true m.tokens }

unfoldable pub cancel : ℕ → JobManager → JobManager
cancel id m = set_token id (m.labels id) m

unfoldable pub label : ℕ → JobManager → Option Str
label id m = m.labels id

unfoldable pub reap : ℕ → JobManager → JobManager
reap id m = record m { labels = at id none m.labels }

-- The thread of a job: it sends progress, and at its end the outcome.
unfoldable pub send_progress : ℕ → JobProgress → JobManager → JobManager
send_progress id progress m = record m { sent = progressed id progress ∷ m.sent }

unfoldable pub end_job : (VfsError → Str) → ℕ → Ending → JobManager → JobManager
end_job describe id ending m = record m {
  threads = at id ended m.threads;
  sent = finished id (outcome_of describe ending) ∷ m.sent;
}

-- A thread acts while it runs; `reap` waits for the thread it joins. An id is not used twice, as long as
-- the counter does not wrap around.
pub data Step (describe : VfsError → Str) : JobManager → JobManager → Type 0 where
  spawns : (m : JobManager) (name : Str) → m.next_id + 1 < word_mod → Step describe m (spawn name m)
  cancels : (m : JobManager) (id : ℕ) → Step describe m (cancel id m)
  reaps :
      (m : JobManager) (id : ℕ)
      → (m.labels id ≡ none) ⊎ (m.threads id ≡ ended)
      → Step describe m (reap id m)
  reports :
      (m : JobManager) (id : ℕ) (progress : JobProgress)
      → m.threads id ≡ running
      → Step describe m (send_progress id progress m)
  ends :
      (m : JobManager) (id : ℕ) (ending : Ending)
      → m.threads id ≡ running
      → Step describe m (end_job describe id ending m)

pub data Reaches (describe : VfsError → Str) : JobManager → Type 0 where
  starts : Reaches describe new_manager
  goes_on : {m m' : JobManager} → Reaches describe m → Step describe m m' → Reaches describe m'

-- The events of one job.
abbrev pub events_of : ℕ → List JobEvent → List JobEvent
events_of id = filter (λ e. job_id e == id)
