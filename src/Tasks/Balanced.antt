-- ===== src/Tasks/Balanced.antt =====
-- No worker is lost or made: those that are idle and those that goroutines hold are as many as the
-- pool was made with.
use cloudreve.Prelude.{
  ℕ, zero, suc, ◌+◌, ◌≤◌, ◌≡◌, refl, sym, ap, ◌∙◌, arith, true, Option, none, some, List, [], ◌∷◌,
  ◌++◌, ltb, ◌>>=◌, Option-cases, inl, inr,
}
use mathlib.Core.Path.{subst}
use cloudreve.Tasks.{
  processing, Job, Outcome, set_status, finish, waiting, doing, freeing, ended, Task, task,
  AsyncPool, task_at, set_task, add, init, Event, submits, obtains, ends, frees, obtain_worker,
  end_task, free_worker, step, run,
}

-- 1 for a goroutine that holds a worker.
abbrev pub held : Task → ℕ
held (task waiting job) = 0
held (task doing job) = 1
held (task freeing job) = 1
held (task ended job) = 0

unfoldable pub busy : List Task → ℕ
busy [] = 0
busy (t ∷ ts) = held t + busy ts

-- Made with this many workers, which are idle or held.
pub record IsBalanced (n : ℕ) (pool : AsyncPool) : Type 0 where
  pub balanced : pool.idle_worker + busy pool.tasks ≡ n
  pub made_with : pool.capacity ≡ n

busy-snoc : (ts : List Task) (job : Job) → busy (ts ++ (task waiting job ∷ [])) ≡ busy ts
unfolding busy
busy-snoc [] job = refl
busy-snoc (t ∷ ts) job = ap (λ n. held t + n) (busy-snoc ts job)

pub busy-set_task :
    (i : ℕ) (t t' : Task) (ts : List Task)
    → task_at i ts ≡ some t
    → busy (set_task i t' ts) + held t ≡ busy ts + held t'
unfolding busy
busy-set_task i t t' [] e = let no_way : ⊥ = cc in elim no_way [ ]
busy-set_task zero t t' (u ∷ ts) e = let same : u ≡ t = cc in rw same (omega arith)
busy-set_task (suc i) t t' (u ∷ ts) e = let h = busy-set_task i t t' ts e in omega (arith, h)

obtain_worker-IsBalanced :
    {n : ℕ} (i : ℕ) (o : Option Task) (p q : AsyncPool)
    → task_at i p.tasks ≡ o
    → obtain_worker i o p ≡ some q
    → IsBalanced n p
    → IsBalanced n q
unfolding obtain_worker
obtain_worker-IsBalanced i (some (task waiting job)) p q at e h =
    let moved =
      busy-set_task i (task waiting job) (task doing (set_status processing job)) p.tasks at in
    record {
      balanced = ground (arith, moved, e, h.balanced);
      made_with = ground (arith, e, h.made_with);
    }
obtain_worker-IsBalanced i none p q at e h = let no_way : ⊥ = cc in elim no_way [ ]
obtain_worker-IsBalanced i (some (task doing job)) p q at e h =
    let no_way : ⊥ = cc in elim no_way [ ]
obtain_worker-IsBalanced i (some (task freeing job)) p q at e h =
    let no_way : ⊥ = cc in elim no_way [ ]
obtain_worker-IsBalanced i (some (task ended job)) p q at e h =
    let no_way : ⊥ = cc in elim no_way [ ]

end_task-IsBalanced :
    {n : ℕ} (i : ℕ) (outcome : Outcome) (o : Option Task) (p q : AsyncPool)
    → task_at i p.tasks ≡ o
    → end_task i outcome o p ≡ some q
    → IsBalanced n p
    → IsBalanced n q
unfolding end_task
end_task-IsBalanced i outcome (some (task doing job)) p q at e h =
    let moved = busy-set_task i (task doing job) (task freeing (finish outcome job)) p.tasks at in
    record {
      balanced = ground (arith, moved, e, h.balanced);
      made_with = ground (arith, e, h.made_with);
    }
end_task-IsBalanced i outcome none p q at e h = let no_way : ⊥ = cc in elim no_way [ ]
end_task-IsBalanced i outcome (some (task waiting job)) p q at e h =
    let no_way : ⊥ = cc in elim no_way [ ]
end_task-IsBalanced i outcome (some (task freeing job)) p q at e h =
    let no_way : ⊥ = cc in elim no_way [ ]
end_task-IsBalanced i outcome (some (task ended job)) p q at e h =
    let no_way : ⊥ = cc in elim no_way [ ]

free_worker-IsBalanced :
    {n : ℕ} (i : ℕ) (o : Option Task) (p q : AsyncPool)
    → task_at i p.tasks ≡ o
    → free_worker i o p ≡ some q
    → IsBalanced n p
    → IsBalanced n q
unfolding free_worker add
free_worker-IsBalanced i (some (task freeing job)) p q at e h =
    let moved = busy-set_task i (task freeing job) (task ended job) p.tasks at in
    record {
      balanced = ground (arith, moved, e, h.balanced);
      made_with = ground (arith, e, h.made_with);
    }
free_worker-IsBalanced i none p q at e h = let no_way : ⊥ = cc in elim no_way [ ]
free_worker-IsBalanced i (some (task waiting job)) p q at e h =
    let no_way : ⊥ = cc in elim no_way [ ]
free_worker-IsBalanced i (some (task doing job)) p q at e h = let no_way : ⊥ = cc in elim no_way [ ]
free_worker-IsBalanced i (some (task ended job)) p q at e h = let no_way : ⊥ = cc in elim no_way [ ]

pub step-IsBalanced :
    {n : ℕ} (ev : Event) (p q : AsyncPool) → step ev p ≡ some q → IsBalanced n p → IsBalanced n q
unfolding step
step-IsBalanced (submits job) p q e h =
    let same = busy-snoc p.tasks job in
    record {
      balanced = ground (arith, same, e, h.balanced);
      made_with = ground (arith, e, h.made_with);
    }
step-IsBalanced (obtains i) p q e h = obtain_worker-IsBalanced i (task_at i p.tasks) p q refl e h
step-IsBalanced (ends i o) p q e h = end_task-IsBalanced i o (task_at i p.tasks) p q refl e h
step-IsBalanced (frees i) p q e h = free_worker-IsBalanced i (task_at i p.tasks) p q refl e h

run-from :
    (n : ℕ) (es : List Event) (p q : AsyncPool)
    → run es p ≡ some q
    → IsBalanced n p
    → IsBalanced n q
unfolding run
run-from n [] p q e h = let same : p ≡ q = cc in subst (IsBalanced n) same h
run-from n (ev ∷ es) p q e h = elim (Option-cases (step ev p)) [
  | inl f ↦
      let lost : run (ev ∷ es) p ≡ none = rw (run, f, ◌>>=◌) refl in
      let no_way : ⊥ = cc in elim no_way [ ]
  | inr (next, f) ↦
      let goes : run (ev ∷ es) p ≡ run es next = rw (run, f, ◌>>=◌) refl in
      run-from n es next q (sym goes ∙ e) (step-IsBalanced ev p next f h)
]

add_lem :
    (n : ℕ) (p : AsyncPool)
    → p.idle_worker + n ≤ p.capacity
    → add n p ≡ some (record p { idle_worker = p.idle_worker + n })
unfolding add
add_lem zero p h = ap (λ n. some (record p { idle_worker = n })) (omega arith)
add_lem (suc n) p h =
    let fits : ltb p.idle_worker p.capacity ≡ true = ground (arith, h) in
    rw fits (
      add_lem n (record p { idle_worker = suc p.idle_worker }) (omega (arith, h))
      ∙ ap (λ m. some (record p { idle_worker = m })) (omega arith))

-- `Init` gives a pool in which all workers are idle.
init_lem : (n : ℕ) → init n ≡ some (record { capacity = n; idle_worker = n; tasks = [] })
unfolding init add
init_lem n =
    let zero_plus : 0 + n ≡ n = omega arith in
    add_lem n (record { capacity = n; idle_worker = 0; tasks = [] }) (omega arith)
    ∙ ap (λ m. some (record { capacity = n; idle_worker = m; tasks = [] })) zero_plus

pub init-IsBalanced : (n : ℕ) (p : AsyncPool) → init n ≡ some p → IsBalanced n p
unfolding busy
init-IsBalanced n p e =
    let made = init_lem n in
    let same : record { capacity = n; idle_worker = n; tasks = [] } ≡ p = cc in
    subst (IsBalanced n) same (record { balanced = omega arith; made_with = refl })

-- After any steps of a pool that Init has made, the workers that are idle and those that
-- goroutines hold are as many as Init was given.
pub run-IsBalanced :
    (n : ℕ) (p q : AsyncPool) (es : List Event)
    → init n ≡ some p
    → run es p ≡ some q
    → IsBalanced n q
run-IsBalanced n p q es made e = run-from n es p q e (init-IsBalanced n p made)
