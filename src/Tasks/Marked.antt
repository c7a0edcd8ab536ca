-- ===== src/Tasks/Marked.antt =====
-- The statuses of the jobs: Processing while a worker does them, and Error or Complete after it.
use mathlib.Core.Path.{subst}
use cloudreve.Prelude.{
  ℕ, zero, suc, ◌≡◌, refl, sym, ◌∙◌, arith, Bool, true, false, ◌&&◌, Option, none, some, List, [],
  ◌∷◌, ◌++◌, ◌>>=◌, Option-cases, inl, inr,
}
use cloudreve.Tasks.{
  Status, processing, error, complete, Job, Outcome, returns, panics, set_status, finish, waiting,
  doing, freeing, ended, Task, task, AsyncPool, task_at, set_task, add, Event, submits, obtains,
  ends, frees, obtain_worker, end_task, free_worker, step, run,
}

abbrev pub is_processing : Status → Bool
is_processing processing = true
is_processing s = false

abbrev pub is_final : Status → Bool
is_final error = true
is_final complete = true
is_final s = false

abbrev pub is_marked : Task → Bool
is_marked (task waiting job) = true
is_marked (task doing job) = is_processing job.status
is_marked (task freeing job) = is_final job.status
is_marked (task ended job) = is_final job.status

unfoldable pub all_marked : List Task → Bool
all_marked [] = true
all_marked (t ∷ ts) = is_marked t && all_marked ts

and_left : (a b : Bool) → (a && b) ≡ true → a ≡ true
and_left true b h = refl
and_left false b h = h

and_right : (a b : Bool) → (a && b) ≡ true → b ≡ true
and_right true b h = h
and_right false b h = let no_way : ⊥ = cc in elim no_way [ ]

and_both : (a b : Bool) → a ≡ true → b ≡ true → (a && b) ≡ true
and_both true b e f = f
and_both false b e f = e

set_task-all_marked :
    (i : ℕ) (t : Task) (ts : List Task)
    → is_marked t ≡ true
    → all_marked ts ≡ true
    → all_marked (set_task i t ts) ≡ true
unfolding all_marked
set_task-all_marked i t [] e h = refl
set_task-all_marked zero t (u ∷ ts) e h =
    and_both (is_marked t) (all_marked ts) e (and_right (is_marked u) (all_marked ts) h)
set_task-all_marked (suc i) t (u ∷ ts) e h =
    and_both (is_marked u) (all_marked (set_task i t ts)) (and_left (is_marked u) (all_marked ts) h)
      (set_task-all_marked i t ts e (and_right (is_marked u) (all_marked ts) h))

task_at_marked :
    (i : ℕ) (t : Task) (ts : List Task)
    → all_marked ts ≡ true
    → task_at i ts ≡ some t
    → is_marked t ≡ true
unfolding all_marked
task_at_marked i t [] h e = let no_way : ⊥ = cc in elim no_way [ ]
task_at_marked zero t (u ∷ ts) h e =
    let same : u ≡ t = cc in
    subst (λ v. is_marked v ≡ true) same (and_left (is_marked u) (all_marked ts) h)
task_at_marked (suc i) t (u ∷ ts) h e =
    task_at_marked i t ts (and_right (is_marked u) (all_marked ts) h) e

snoc-all_marked :
    (ts : List Task) (job : Job)
    → all_marked ts ≡ true
    → all_marked (ts ++ (task waiting job ∷ [])) ≡ true
unfolding all_marked
snoc-all_marked [] job h = refl
snoc-all_marked (t ∷ ts) job h =
    and_both (is_marked t) (all_marked (ts ++ (task waiting job ∷ [])))
      (and_left (is_marked t) (all_marked ts) h)
      (snoc-all_marked ts job (and_right (is_marked t) (all_marked ts) h))

finish_final : (o : Outcome) (job : Job) → is_final (finish o job).status ≡ true
unfolding finish
finish_final (panics text) job = refl
finish_final (returns none) job = refl
finish_final (returns (some e)) job = refl

obtain_worker-marked :
    (i : ℕ) (o : Option Task) (p q : AsyncPool)
    → task_at i p.tasks ≡ o
    → obtain_worker i o p ≡ some q
    → all_marked p.tasks ≡ true
    → all_marked q.tasks ≡ true
unfolding obtain_worker
obtain_worker-marked i (some (task waiting job)) p q at e h =
    let kept = set_task-all_marked i (task doing (set_status processing job)) p.tasks refl h in
    ground (arith, e, kept)
obtain_worker-marked i none p q at e h = let no_way : ⊥ = cc in elim no_way [ ]
obtain_worker-marked i (some (task doing job)) p q at e h = let no_way : ⊥ = cc in elim no_way [ ]
obtain_worker-marked i (some (task freeing job)) p q at e h = let no_way : ⊥ = cc in elim no_way [ ]
obtain_worker-marked i (some (task ended job)) p q at e h = let no_way : ⊥ = cc in elim no_way [ ]

end_task-marked :
    (i : ℕ) (outcome : Outcome) (o : Option Task) (p q : AsyncPool)
    → task_at i p.tasks ≡ o
    → end_task i outcome o p ≡ some q
    → all_marked p.tasks ≡ true
    → all_marked q.tasks ≡ true
unfolding end_task
end_task-marked i outcome (some (task doing job)) p q at e h =
    let kept =
      set_task-all_marked i (task freeing (finish outcome job)) p.tasks (finish_final outcome job)
        h in
    ground (arith, e, kept)
end_task-marked i outcome none p q at e h = let no_way : ⊥ = cc in elim no_way [ ]
end_task-marked i outcome (some (task waiting job)) p q at e h =
    let no_way : ⊥ = cc in elim no_way [ ]
end_task-marked i outcome (some (task freeing job)) p q at e h =
    let no_way : ⊥ = cc in elim no_way [ ]
end_task-marked i outcome (some (task ended job)) p q at e h =
    let no_way : ⊥ = cc in elim no_way [ ]

free_worker-marked :
    (i : ℕ) (o : Option Task) (p q : AsyncPool)
    → task_at i p.tasks ≡ o
    → free_worker i o p ≡ some q
    → all_marked p.tasks ≡ true
    → all_marked q.tasks ≡ true
unfolding free_worker add
free_worker-marked i (some (task freeing job)) p q at e h =
    let final = task_at_marked i (task freeing job) p.tasks h at in
    let kept = set_task-all_marked i (task ended job) p.tasks final h in ground (arith, e, kept)
free_worker-marked i none p q at e h = let no_way : ⊥ = cc in elim no_way [ ]
free_worker-marked i (some (task waiting job)) p q at e h = let no_way : ⊥ = cc in elim no_way [ ]
free_worker-marked i (some (task doing job)) p q at e h = let no_way : ⊥ = cc in elim no_way [ ]
free_worker-marked i (some (task ended job)) p q at e h = let no_way : ⊥ = cc in elim no_way [ ]

step-marked :
    (ev : Event) (p q : AsyncPool)
    → step ev p ≡ some q
    → all_marked p.tasks ≡ true
    → all_marked q.tasks ≡ true
unfolding step
step-marked (submits job) p q e h =
    let kept = snoc-all_marked p.tasks job h in ground (arith, e, kept)
step-marked (obtains i) p q e h = obtain_worker-marked i (task_at i p.tasks) p q refl e h
step-marked (ends i o) p q e h = end_task-marked i o (task_at i p.tasks) p q refl e h
step-marked (frees i) p q e h = free_worker-marked i (task_at i p.tasks) p q refl e h

-- Any steps of a pool keep the jobs that workers do at Processing, and those that are done at Error or
-- Complete.
pub run-all_marked :
    (es : List Event) (p q : AsyncPool)
    → run es p ≡ some q
    → all_marked p.tasks ≡ true
    → all_marked q.tasks ≡ true
unfolding run
run-all_marked [] p q e h = let same : p ≡ q = cc in subst (λ r. all_marked r.tasks ≡ true) same h
run-all_marked (ev ∷ es) p q e h = elim (Option-cases (step ev p)) [
  | inl f ↦
      let lost : run (ev ∷ es) p ≡ none = rw (run, f, ◌>>=◌) refl in
      let no_way : ⊥ = cc in elim no_way [ ]
  | inr (next, f) ↦
      let goes : run (ev ∷ es) p ≡ run es next = rw (run, f, ◌>>=◌) refl in
      run-all_marked es next q (sym goes ∙ e) (step-marked ev p next f h)
]
