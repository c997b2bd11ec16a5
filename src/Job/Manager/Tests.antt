-- ===== src/Job/Manager/Tests.antt =====
-- A job that reports once, is cancelled, and panics.
use pfnc.Prelude.{◌≡◌, refl, none, [], Str, codes, arith}
use pfnc.Vfs.{VfsError}
use pfnc.Job.{no_progress}
use pfnc.Job.Manager.{
  JobManager, new_manager, spawn, send_progress, cancel, end_job, reap, label, events_of, panicked,
  spawns, reports, cancels, ends, Reaches, starts, goes_on,
}
use pfnc.Job.Manager.Log.{Sent, Reaches-Sent}

abbrev no_text : VfsError → Str
no_text _ = []

abbrev panicking : JobManager
unfolding new_manager spawn send_progress cancel end_job
panicking =
    end_job no_text 0 panicked
      (cancel 0 (send_progress 0 no_progress (spawn (codes "Copying") new_manager)))

panicking-Reaches : Reaches no_text panicking
unfolding panicking
panicking-Reaches =
    goes_on
      (goes_on
        (goes_on (goes_on starts (spawns new_manager (codes "Copying") (omega arith)))
          (reports _ 0 no_progress refl))
        (cancels _ 0))
      (ends _ 0 panicked refl)

reaped : label 0 (reap 0 panicking) ≡ none
unfolding label reap panicking
reaped = refl

Reaches-Sent_example : Sent 0 (panicking.threads 0) (events_of 0 panicking.sent)
Reaches-Sent_example = Reaches-Sent no_text panicking 0 panicking-Reaches
