-- ===== src/Webdav/Lock/Claims.antt =====
-- What Refresh promises and what `lookup` finds, in a consistent lock system.
use cloudreve.Prelude.{
  ℕ, ◌≡◌, ◌≢◌, refl, true, false, Option, none, some, List, [], ◌∷◌, ◌⊎◌, inl, inr, ℤ, Bytes, arith,
  nonneg, Option-cases, Bool-cases, ◌>>=◌,
}
use cloudreve.Webdav.Lock.State.{MemLs, Condition, ok, failed, locked, no_such_lock, add}
use cloudreve.Webdav.Lock.Methods.{refresh, renew, lookup, covers}
use cloudreve.Webdav.Lock.Members.{In}
use cloudreve.Webdav.Lock.Consistent.{IsConsistent}
use cloudreve.Webdav.Lock.Touch.{Touched}
use cloudreve.Webdav.Lock.Renewal.{renew_lem}
use cloudreve.Webdav.Lock.Collect.{Collected, collect_expired_nodes_lem}
use cloudreve.Webdav.Lock.Contract.{token_cases}

-- Refresh has given the lock `n` a new duration.
pub record Refreshed (now : ℕ) (duration : ℤ) (m : MemLs) (locks : List ℕ) (token : Bytes) (n : ℕ)
    (f : MemLs) : Type 0 where
  pub touched : Touched n m f
  pub member : In n locks
  pub token_of : (m.nodes n).token ≡ token
  pub free : (m.nodes n).held ≡ false
  pub still_free : (f.nodes n).held ≡ false
  pub duration_of : (f.nodes n).details.duration ≡ duration
  pub deadline : nonneg duration ≡ true → (f.nodes n).expiry ≡ add now duration

-- How a call of this method ends: the locks that have not expired, and its answers.
abbrev pub RefreshEnds : ℕ → Bytes → ℤ → MemLs → List ℕ → Type 0
RefreshEnds now token duration m locks =
    (m₁ : MemLs) × (locks₁ : List ℕ) × Collected now m locks m₁ locks₁
    × (((refresh now token duration m ≡ some (failed no_such_lock, m₁))
          × ((k : ℕ) → In k locks₁ → (m₁.nodes k).token ≢ token))
        ⊎ ((refresh now token duration m ≡ some (failed locked, m₁))
            × ((k : ℕ) × In k locks₁ × ((m₁.nodes k).token ≡ token) × ((m₁.nodes k).held ≡ true)))
        ⊎ ((n : ℕ) × (f : MemLs) × (refresh now token duration m ≡ some (ok (f.nodes n).details, f))
            × Refreshed now duration m₁ locks₁ token n f))

-- From a consistent system Refresh never panics. It answers ErrNoSuchLock exactly if no lock that
-- has not expired has the token, ErrLocked if a Confirm holds that lock, and else it gives that lock
-- the duration, and the deadline after it, and changes no other lock.
pub refresh-Refreshed :
    (now : ℕ) (token : Bytes) (duration : ℤ) (m : MemLs) (locks : List ℕ)
    → IsConsistent m locks
    → RefreshEnds now token duration m locks
unfolding refresh
refresh-Refreshed now token duration m locks h =
    let (m₁, locks₁, e, c) = collect_expired_nodes_lem now m locks h in
    (
      m₁,
      locks₁,
      c,
      elim (token_cases m₁ locks₁ token c.consistent) [
        | inl (v, missing) ↦ inl (rw (e, ◌>>=◌, v) refl, missing)
        | inr (n, v, i, p, inl held) ↦ inr (inl (rw (e, ◌>>=◌, v, held) refl, (n, i, p, held)))
        | inr (n, v, i, p, inr free) ↦
            let (t, d, deadline, still) = renew_lem c.consistent n i now duration free in
            inr (
              inr (
                n,
                renew now n duration m₁,
                rw (e, ◌>>=◌, v, free) refl,
                record {
                  touched = t;
                  member = i;
                  token_of = p;
                  free = free;
                  still_free = still;
                  duration_of = d;
                  deadline = deadline;
                },
              ))
      ],
    )

-- A condition names no lock, a lock that is held, or one that does not cover the name.
pub data Useless (m : MemLs) (name : Bytes) (c : Condition) : Type 0 where
  no_lock : m.by_token c.token ≡ none → Useless m name c
  lock_held : (n : ℕ) → m.by_token c.token ≡ some n → (m.nodes n).held ≡ true → Useless m name c
  not_covered :
      (n : ℕ)
      → m.by_token c.token ≡ some n
      → covers (m.nodes n).details name ≡ false
      → Useless m name c

-- The lock of the first condition that is not useless, and none if all are.
pub data Finds (m : MemLs) (name : Bytes) : List Condition → Option ℕ → Type 0 where
  nothing : Finds m name [] none
  found :
      (c : Condition) (conditions : List Condition) (n : ℕ)
      → m.by_token c.token ≡ some n
      → (m.nodes n).held ≡ false
      → covers (m.nodes n).details name ≡ true
      → Finds m name (c ∷ conditions) (some n)
  passes :
      (c : Condition) (conditions : List Condition) (o : Option ℕ)
      → Useless m name c
      → Finds m name conditions o
      → Finds m name (c ∷ conditions) o

pub lookup-Finds :
    (m : MemLs) (name : Bytes) (conditions : List Condition)
    → Finds m name conditions (lookup m name conditions)
unfolding lookup
lookup-Finds m name [] = nothing
lookup-Finds m name (c ∷ conditions) =
    let rest = lookup-Finds m name conditions in
    let o = lookup m name conditions in
    elim (Option-cases (m.by_token c.token)) [
      | inl v ↦ rw (lookup, v) (passes c conditions o (no_lock v) rest)
      | inr (k, v) ↦ elim (Bool-cases (m.nodes k).held) [
        | inl t ↦ rw (lookup, v, t) (passes c conditions o (lock_held k v t) rest)
        | inr t ↦ elim (Bool-cases (covers (m.nodes k).details name)) [
          | inr u ↦ rw (lookup, v, t, u) (passes c conditions o (not_covered k v u) rest)
          | inl u ↦ rw (lookup, v, t, u) (found c conditions k v t u)
        ]
      ]
    ]

-- A lock that `lookup` finds is one of the conditions', is not held, and covers the name.
pub record Claimed (m : MemLs) (locks : List ℕ) (name : Bytes) (n : ℕ) : Type 0 where
  pub member : In n locks
  pub free : (m.nodes n).held ≡ false
  pub covered : covers (m.nodes n).details name ≡ true

pub lookup-Claimed :
    (m : MemLs) (locks : List ℕ) (name : Bytes) (conditions : List Condition) (n : ℕ)
    → IsConsistent m locks
    → lookup m name conditions ≡ some n
    → Claimed m locks name n
unfolding lookup
lookup-Claimed m locks name [] n h e = absurd (ground arith)
lookup-Claimed m locks name (c ∷ conditions) n h e = elim (Option-cases (m.by_token c.token)) [
  | inl v ↦ lookup-Claimed m locks name conditions n h (rw (v, lookup) at e)
  | inr (k, v) ↦ elim (Bool-cases (m.nodes k).held) [
    | inl t ↦ lookup-Claimed m locks name conditions n h (rw (v, lookup, t) at e)
    | inr t ↦ elim (Bool-cases (covers (m.nodes k).details name)) [
      | inr u ↦ lookup-Claimed m locks name conditions n h (rw (v, lookup, t, u) at e)
      | inl u ↦
          let e' : some k ≡ some n = rw (v, lookup, t, u) at e in
          let p : k ≡ n = cc in
          rw (← p) (record { member = (h.token c.token k v).0; free = t; covered = u })
    ]
  ]
]
