-- ===== src/Tasks/Progress.antt =====
-- The pool does not come to a stop: as long as a job has not ended, some goroutine can go on, and each
-- step but a submission brings the jobs nearer to their end.
use cloudreve.Prelude.{
  ℕ, zero, suc, ◌+◌, ◌-◌, ◌<◌, ◌≡◌, refl, arith, true, none, some, List, [], ◌∷◌, ltb, ◌>>=◌, ◌⊎◌,
  inl, inr,
}
use cloudreve.Tasks.{
  processing, Job, returns, set_status, finish, waiting, doing, freeing, ended, Task, task,
  AsyncPool, task_at, set_task, add, init, Event, obtains, ends, frees, obtain_worker, end_task,
  free_worker, step, run,
}
use cloudreve.Tasks.Balanced.{busy, busy-set_task, IsBalanced, step-IsBalanced, run-IsBalanced}

-- The steps that a goroutine has before it.
abbrev pub steps_of : Task → ℕ
steps_of (task waiting job) = 3
steps_of (task doing job) = 2
steps_of (task freeing job) = 1
steps_of (task ended job) = 0

unfoldable pub left : List Task → ℕ
left [] = 0
left (t ∷ ts) = steps_of t + left ts

left-set_task :
    (i : ℕ) (t t' : Task) (ts : List Task)
    → task_at i ts ≡ some t
    → left (set_task i t' ts) + steps_of t ≡ left ts + steps_of t'
unfolding left
left-set_task i t t' [] e = let no_way : ⊥ = cc in elim no_way [ ]
left-set_task zero t t' (u ∷ ts) e = let same : u ≡ t = cc in rw same (omega arith)
left-set_task (suc i) t t' (u ∷ ts) e = let h = left-set_task i t t' ts e in omega (arith, h)

-- Where jobs are left, one that has a worker, or, if none has, one that waits for it.
data Next (ts : List Task) : Type 0 where
  at_doing : (i : ℕ) (job : Job) → task_at i ts ≡ some (task doing job) → Next ts
  at_freeing : (i : ℕ) (job : Job) → task_at i ts ≡ some (task freeing job) → Next ts
  at_waiting : (i : ℕ) (job : Job) → task_at i ts ≡ some (task waiting job) → busy ts ≡ 0 → Next ts
  none_left : left ts ≡ 0 → busy ts ≡ 0 → Next ts

-- With one more job that has ended.
after_ended : (job : Job) (ts : List Task) → Next ts → Next (task ended job ∷ ts)
unfolding left busy
after_ended job ts (at_doing i j e) = at_doing (suc i) j e
after_ended job ts (at_freeing i j e) = at_freeing (suc i) j e
after_ended job ts (at_waiting i j e b) = at_waiting (suc i) j e (omega (arith, b))
after_ended job ts (none_left l b) = none_left (omega (arith, l)) (omega (arith, b))

after_waiting : (job : Job) (ts : List Task) → Next ts → Next (task waiting job ∷ ts)
unfolding left busy
after_waiting job ts (at_doing i j e) = at_doing (suc i) j e
after_waiting job ts (at_freeing i j e) = at_freeing (suc i) j e
after_waiting job ts (at_waiting i j e b) = at_waiting (suc i) j e (omega (arith, b))
after_waiting job ts (none_left l b) = at_waiting 0 job refl (omega (arith, b))

scan : (ts : List Task) → Next ts
unfolding left busy
scan [] = none_left refl refl
scan (task waiting job ∷ ts) = after_waiting job ts (scan ts)
scan (task doing job ∷ ts) = at_doing 0 job refl
scan (task freeing job ∷ ts) = at_freeing 0 job refl
scan (task ended job ∷ ts) = after_ended job ts (scan ts)

-- A step that a pool can take and that brings it nearer to the end of its jobs.
record Goes (p : AsyncPool) : Type 0 where
  ev : Event
  next : AsyncPool
  takes : step ev p ≡ some next
  nearer : suc (left next.tasks) ≡ left p.tasks

advance :
    (n : ℕ) (p : AsyncPool) → 0 < n → IsBalanced n p → Next p.tasks → Goes p ⊎ (left p.tasks ≡ 0)
unfolding step obtain_worker end_task free_worker add
advance n p some_worker h (none_left l b) = inr l
advance n p some_worker h (at_doing i job e) =
    let fewer =
      left-set_task i (task doing job) (task freeing (finish (returns none) job)) p.tasks e in
    inl (record {
      ev = ends i (returns none);
      next = record p { tasks = set_task i (task freeing (finish (returns none) job)) p.tasks };
      takes = rw (step, end_task, e) refl;
      nearer = omega (arith, fewer);
    })
advance n p some_worker h (at_freeing i job e) =
    let fewer = left-set_task i (task freeing job) (task ended job) p.tasks e in
    let less = busy-set_task i (task freeing job) (task ended job) p.tasks e in
    let room : ltb p.idle_worker p.capacity ≡ true =
      ground (arith, less, h.balanced, h.made_with) in
    inl (record {
      ev = frees i;
      next = record p {
        idle_worker = suc p.idle_worker;
        tasks = set_task i (task ended job) p.tasks;
      };
      takes = rw (step, free_worker, e, add, room) refl;
      nearer = omega (arith, fewer);
    })
advance n p some_worker h (at_waiting i job e b) =
    let fewer =
      left-set_task i (task waiting job) (task doing (set_status processing job)) p.tasks e in
    let room : ltb 0 p.idle_worker ≡ true = ground (arith, b, h.balanced, some_worker) in
    inl (record {
      ev = obtains i;
      next = record p {
        idle_worker = p.idle_worker - 1;
        tasks = set_task i (task doing (set_status processing job)) p.tasks;
      };
      takes = rw (step, obtain_worker, e, room) refl;
      nearer = omega (arith, fewer);
    })

drains :
    (n k : ℕ) (p : AsyncPool)
    → 0 < n
    → IsBalanced n p
    → left p.tasks ≡ k
    → (es : List Event) × (q : AsyncPool) × (run es p ≡ some q) × (left q.tasks ≡ 0)
unfolding run
drains n zero p some_worker h e = ([], p, refl, e)
drains n (suc k) p some_worker h e = elim (advance n p some_worker h (scan p.tasks)) [
  | inr done ↦ ([], p, refl, done)
  | inl g ↦
      let fewer = g.nearer in
      let rest =
        drains n k g.next some_worker (step-IsBalanced g.ev p g.next g.takes h)
          (omega (arith, fewer, e)) in
      (g.ev ∷ rest.0, rest.1, rw (run, g.takes, ◌>>=◌) rest.2, rest.3)
]

-- Whatever the goroutines of a pool with a worker have done since Init, they can go on until all jobs
-- have ended.
pub run-drains :
    (n : ℕ) (p q : AsyncPool) (es : List Event)
    → 0 < n
    → init n ≡ some p
    → run es p ≡ some q
    → (more : List Event) × (after : AsyncPool) × (run more q ≡ some after) × (left after.tasks ≡ 0)
run-drains n p q es some_worker made e =
    drains n (left q.tasks) q some_worker (run-IsBalanced n p q es made e) refl
