-- ===== src/Tasks.antt =====
-- pkg/task/pool.go and worker.go: the pool of workers and what a worker does with a job. The channel
-- idleWorker is the number of values in it and its capacity, and each job that is submitted has a
-- goroutine, which is at a phase of the function in Submit.
pub mod Balanced
pub mod Marked
pub mod Progress
mod Tests
use cloudreve.Prelude.{
  ℕ, zero, suc, ◌+◌, ◌-◌, Bool, true, false, Option, none, some, List, [], ◌∷◌, ◌++◌, Bytes, codes,
  ltb, if◌then◌else◌, ◌>>=◌,
}

pub data Status : Type 0 where
  queued processing error canceled complete : Status

pub record JobError : Type 0 where
  pub msg : Bytes
  pub error : Bytes

pub record Job : Type 0 where
  pub status : Status
  pub err : Option JobError

-- How the method Do of a job ends: with what GetError gives then, or with a panic and its text.
pub data Outcome : Type 0 where
  returns : Option JobError → Outcome
  panics : Bytes → Outcome

abbrev pub set_status : Status → Job → Job
set_status s job = record job { status = s }

-- The worker's Do after that of the job.
unfoldable pub finish : Outcome → Job → Job
finish (panics text) job =
    set_status error
      (record job { err = some (record { msg = codes "Fatal error."; error = text }) })
finish (returns (some e)) job = set_status error (record job { err = some e })
finish (returns none) job = set_status complete (record job { err = none })

-- Before a worker is obtained, in Do, before the worker is freed, and after it.
pub data Phase : Type 0 where
  waiting doing freeing ended : Phase

pub data Task : Type 0 where
  task : Phase → Job → Task

pub record AsyncPool : Type 0 where
  pub capacity : ℕ
  pub idle_worker : ℕ
  pub tasks : List Task

abbrev pub task_at : ℕ → List Task → Option Task
task_at i [] = none
task_at zero (t ∷ ts) = some t
task_at (suc i) (t ∷ ts) = task_at i ts

abbrev pub set_task : ℕ → Task → List Task → List Task
set_task i t [] = []
set_task zero t (u ∷ ts) = t ∷ ts
set_task (suc i) t (u ∷ ts) = u ∷ set_task i t ts

-- `none` where the channel is full and the call waits.
unfoldable pub add : ℕ → AsyncPool → Option AsyncPool
add zero pool = some pool
add (suc n) pool =
    let rest = add n (record pool { idle_worker = suc pool.idle_worker }) in
    if ltb pool.idle_worker pool.capacity then rest else none

-- `Init` with a number of workers.
unfoldable pub init : ℕ → Option AsyncPool
unfolding add
init max_worker = add max_worker (record { capacity = max_worker; idle_worker = 0; tasks = [] })

-- What goroutines do next, the one with a number where the event has one.
pub data Event : Type 0 where
  submits : Job → Event
  obtains frees : ℕ → Event
  ends : ℕ → Outcome → Event

unfoldable pub obtain_worker : ℕ → Option Task → AsyncPool → Option AsyncPool
obtain_worker i (some (task waiting job)) pool =
    if ltb 0 pool.idle_worker
    then some (record pool {
      idle_worker = pool.idle_worker - 1;
      tasks = set_task i (task doing (set_status processing job)) pool.tasks;
    })
    else none
obtain_worker i t pool = none

unfoldable pub end_task : ℕ → Outcome → Option Task → AsyncPool → Option AsyncPool
unfolding finish
end_task i o (some (task doing job)) pool =
    some (record pool { tasks = set_task i (task freeing (finish o job)) pool.tasks })
end_task i o t pool = none

unfoldable pub free_worker : ℕ → Option Task → AsyncPool → Option AsyncPool
unfolding add
free_worker i (some (task freeing job)) pool =
    add 1 (record pool { tasks = set_task i (task ended job) pool.tasks })
free_worker i t pool = none

-- `none` for a step that a goroutine cannot take now.
unfoldable pub step : Event → AsyncPool → Option AsyncPool
unfolding obtain_worker end_task free_worker
step (submits job) pool = some (record pool { tasks = pool.tasks ++ (task waiting job ∷ []) })
step (obtains i) pool = obtain_worker i (task_at i pool.tasks) pool
step (ends i o) pool = end_task i o (task_at i pool.tasks) pool
step (frees i) pool = free_worker i (task_at i pool.tasks) pool

unfoldable pub run : List Event → AsyncPool → Option AsyncPool
unfolding step
run [] pool = some pool
run (e ∷ es) pool = step e pool >>= λ next. run es next
