-- ===== src/Tasks/Tests.antt =====
-- A pool of one worker with two jobs.
use cloudreve.Prelude.{◌≡◌, refl, true, none, some, List, [], ◌∷◌, codes, arith}
use cloudreve.Tasks.{
  queued, error, complete, Job, returns, panics, finish, freeing, ended, task, AsyncPool, add, init,
  Event, submits, obtains, ends, frees, obtain_worker, end_task, free_worker, step, run,
}
use cloudreve.Tasks.Balanced.{IsBalanced, run-IsBalanced}
use cloudreve.Tasks.Progress.{left, run-drains}
use cloudreve.Tasks.Marked.{all_marked, run-all_marked}

abbrev job : Job
job = record { status = queued; err = none }

abbrev done : Job
done = record { status = complete; err = none }

abbrev failed : Job
failed = record {
  status = error;
  err = some (record { msg = codes "Fatal error."; error = codes "x" });
}

abbrev fresh : AsyncPool
fresh = record { capacity = 1; idle_worker = 1; tasks = [] }

abbrev events : List Event
events =
    submits job
    ∷ submits job
    ∷ obtains 1
    ∷ ends 1 (panics (codes "x"))
    ∷ frees 1
    ∷ obtains 0
    ∷ ends 0 (returns none)
    ∷ []

abbrev late : AsyncPool
late = record { capacity = 1; idle_worker = 0; tasks = task freeing done ∷ task ended failed ∷ [] }

-- The second job waits for the worker of the first.
one_at_a_time : run (submits job ∷ submits job ∷ obtains 1 ∷ obtains 0 ∷ []) fresh ≡ none
unfolding run step obtain_worker
one_at_a_time = refl

run-IsBalanced_example : IsBalanced 1 late
unfolding init add run step obtain_worker end_task free_worker finish
run-IsBalanced_example = run-IsBalanced 1 fresh late events refl refl

run-drains_example :
    (more : List Event) × (after : AsyncPool) × (run more late ≡ some after)
    × (left after.tasks ≡ 0)
unfolding init add run step obtain_worker end_task free_worker finish
run-drains_example = run-drains 1 fresh late events (ground arith) refl refl

run-all_marked_example : all_marked late.tasks ≡ true
unfolding run step obtain_worker end_task free_worker finish all_marked add
run-all_marked_example = run-all_marked events fresh late refl refl
