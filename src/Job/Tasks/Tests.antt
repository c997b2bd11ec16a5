-- ===== src/Job/Tasks/Tests.antt =====
-- The theorems on jobs in the world of Fixtures.antt.
use pfnc.Prelude.{
  ◌*◌, ◌%◌, ◌≡◌, refl, true, false, List, [], ◌∷◌, codes, subst, str_eq, if◌then◌else◌, Bool,
}
use pfnc.Prelude.Words.{word_mod}
use pfnc.Effect.{for_each, ok-injective, Result, pure, fail}
use pfnc.Fixtures.{
  World, test_env, test_vfs, test_agent, d_meta, f_meta, fresh_world, Stopped, test_paths,
}
use pfnc.Job.Walk.{CopyItem}
use pfnc.Job.Tasks.{copy_one, copy_job, move_cross_backend, delete_job, move_job}
use pfnc.Job.Tasks.Cancel.{IsPlanned, jobs-Refused}
use pfnc.Effect.Hoare.{Leaves}
use pfnc.Vfs.{VfsError, not_found, local}
use pfnc.Job.Tasks.Counts.{files_done-copy}
use pfnc.Transport.{vfs_stream_transport, quic_side_transport}
use pfnc.Transport.Count.{files_done, IsCell, IsQuiet, IsQuietAgent, QuietReader, QuietWriter}

abbrev plan : List CopyItem
plan =
    record { source = codes "/d"; destination = codes "/e"; meta = d_meta }
    ∷ record { source = codes "/d/f"; destination = codes "/e/f"; meta = f_meta }
    ∷ []

test_cell : IsCell test_env
test_cell = record {
  load-store = λ p w. refl;
  load-report = λ p w. refl;
  load-is_cancelled = λ w. refl;
}

test-IsQuiet : IsQuiet test_env test_vfs
test-IsQuiet = record {
  load-open_read = λ p w. refl;
  load-create_write = λ p m w. refl;
  load-mkdir = λ p m w. refl;
  load-symlink = λ p q w. refl;
  quiet_reader = λ p w r found. subst (QuietReader test_env) (ok-injective found) (λ n v. refl);
  quiet_writer = λ p m w o made.
      subst (QuietWriter test_env) (ok-injective made)
        (record { load-write = λ buf v. refl; load-flush = λ v. refl });
}

test-IsQuietAgent : IsQuietAgent test_env test_agent
test-IsQuietAgent = record { quiet_read = λ p o w q. refl; quiet_write = λ p m r w q. refl }

abbrev start_world : World
start_world = fresh_world (7 ∷ 8 ∷ []) false

files_done-copy_example :
    (files_done test_env
        (for_each
          (copy_one test_env test_vfs test_vfs (vfs_stream_transport test_env 3 3))
          plan
          tt
          start_world).1
      ≡ 1 % word_mod)
    × (files_done test_env
          (for_each
            (copy_one test_env test_vfs test_vfs (quic_side_transport test_env test_agent false))
            plan
            tt
            start_world).1
        ≡ 2 * 1 % word_mod)
unfolding for_each copy_one vfs_stream_transport quic_side_transport
files_done-copy_example =
    files_done-copy test_env test_cell test_vfs test_vfs test-IsQuiet test-IsQuiet 3 3 test_agent
      false plan start_world test-IsQuietAgent refl refl refl

-- Stopped, with no byte written.
abbrev Idle : World → Type 0
Idle w = Stopped w × (w.stored ≡ [])

either_way :
    {A : Type 0} (b : Bool) (x y : Result VfsError A × World)
    → Idle x.1
    → Idle y.1
    → Idle (if b then x else y).1
either_way true x y h k = h
either_way false x y h k = k

disk-IsPlanned : IsPlanned Idle test_vfs
disk-IsPlanned = record {
  stats = λ p w h.
      either_way (str_eq p (codes "/d")) _
        (if str_eq p (codes "/d/f") then pure f_meta w else fail (not_found p) w) h
        (either_way (str_eq p (codes "/d/f")) _ _ h h);
  lists = λ p w h. either_way (str_eq p (codes "/d")) _ _ h h;
  connects = λ w h. h;
}

jobs-Refused_example :
    Leaves Idle
      (λ _. ⊥)
      (copy_job test_env test_paths 3 3 3 test_vfs test_vfs local local
        (codes "/d" ∷ [])
        (codes "/e")
        true)
    × Leaves Idle
        (λ _. ⊥)
        (move_cross_backend test_env test_paths 3 3 3 test_vfs test_vfs local local
          (codes "/d" ∷ [])
          (codes "/e")
          true)
    × Leaves Idle (λ _. ⊥) (delete_job test_env test_paths 3 3 3 test_vfs (codes "/d" ∷ []))
    × Leaves Idle (λ _. ⊥) (move_job test_env test_vfs ((codes "/d", codes "/e") ∷ []))
jobs-Refused_example =
    jobs-Refused Idle test_env (record { set = λ w h. h.0; stays = λ w h. h }) (λ p w h. h)
      (λ p w h. h) test_paths 3 3 3 test_vfs test_vfs local local (codes "/d") [] (codes "/e") true
      (codes "/d", codes "/e") [] disk-IsPlanned disk-IsPlanned
