-- ===== src/Webdav/Lock/Safety.antt =====
-- No sequence of calls makes the lock system panic, and it stays consistent.
use cloudreve.Prelude.{
  ℕ, zero, suc, ◌+◌, ◌^◌, ◌<◌, ◌≤◌, ◌≡◌, ◌≢◌, refl, ◌∙◌, true, Option, none, some, List, [], ◌∷◌,
  inl, inr, Bytes, ==_refl, arith, Option-cases, ◌>>=◌, length, ℤ,
}
use cloudreve.Webdav.Lock.State.{LockDetails, MemLs, Condition, erase}
use cloudreve.Webdav.Lock.Methods.{Held}
use cloudreve.Webdav.Lock.Members.{In-erase, not-In-erase}
use cloudreve.Webdav.Lock.Consistent.{refs}
use cloudreve.Webdav.Lock.Touch.{Touched-IsConsistent, Touched-IsIssued}
use cloudreve.Webdav.Lock.Collect.{Collected}
use cloudreve.Webdav.Lock.Contract.{create_lock-Created, unlock-Unlocked, IsIssued-collect}
use cloudreve.Webdav.Lock.Claims.{refresh-Refreshed}
use cloudreve.Webdav.Lock.Marks.{count_one, count_held, AllMarked}
use cloudreve.Webdav.Lock.Confirms.{confirm-Confirmed, release-Marked}
use cloudreve.Webdav.Lock.System.{
  Call, create, refresh_lock, unlock_lock, confirm_locks, release_at, System, take_out, apply, run,
  start,
}
use cloudreve.Webdav.Lock.Holders.{
  holders, IsSound, IsHolding-collect, IsHolding-create, IsHolding-unlock, IsHolding-refresh,
  IsHolding-confirm, IsHolding-release,
}

holders-take_out :
    (i : ℕ) (out : List Held) (h : Held) (rest : List Held)
    → take_out i out ≡ some (h, rest)
    → (n : ℕ) → holders n out ≡ count_held n h + holders n rest
unfolding take_out holders
holders-take_out i [] h rest e n = absurd (ground arith)
holders-take_out zero (k ∷ out) h rest e n = ground arith
holders-take_out (suc i) (k ∷ out) h rest e n = elim (Option-cases (take_out i out)) [
  | inl e' ↦ absurd (ground arith)
  | inr ((h', rest'), e') ↦ let ih = holders-take_out i out h' rest' e' n in ground (arith, ih)
]

-- A call from a sound system does not panic, and leaves a sound system.
abbrev Goes : Call → System → Type 0
Goes c s =
    (s' : System) × (locks' : List ℕ) × (apply c s ≡ some s')
    × IsSound s' locks'
    × (s'.ls.gen ≤ s.ls.gen + 1)

module _ {s : System} {locks : List ℕ} (h : IsSound s locks) where
  create-Goes : (now : ℕ) (d : LockDetails) → s.ls.gen + 1 < 2 ^ 64 → Goes (create now d) s
  unfolding apply
  create-Goes now d room =
      let (m₁, locks₁, c, r) = create_lock-Created now d s.ls locks h.consistent h.issued room in
      let p = IsHolding-collect h.consistent c h.holding in
      elim r [
        | inr (e, conflict) ↦ (
          record s { ls = m₁ },
          locks₁,
          rw e refl,
          record { consistent = c.consistent; issued = IsIssued-collect c h.issued; holding = p },
          omega (arith, c.gen),
        )
        | inl (n, token, f, e, made) ↦ (
          record s { ls = f },
          n ∷ locks₁,
          rw e refl,
          record {
            consistent = made.consistent;
            issued = made.issued;
            holding = IsHolding-create made p;
          },
          omega (arith, c.gen, made.gen),
        )
      ]

  -- The answer of a call is dropped: only the state goes on.
  same_locks :
      {now : ℕ} {m₁ : MemLs} {locks₁ : List ℕ}
      → Collected now s.ls locks m₁ locks₁
      → IsSound (record s { ls = m₁ }) locks₁ × (m₁.gen ≤ s.ls.gen + 1)
  same_locks c = (
    record {
      consistent = c.consistent;
      issued = IsIssued-collect c h.issued;
      holding = IsHolding-collect h.consistent c h.holding;
    },
    omega (arith, c.gen),
  )

  refresh-Goes : (now : ℕ) (token : Bytes) (d : ℤ) → Goes (refresh_lock now token d) s
  unfolding apply
  refresh-Goes now token d =
      let (m₁, locks₁, c, r) = refresh-Refreshed now token d s.ls locks h.consistent in
      let (sound, le) = same_locks c in
      elim r [
        | inl (e, _) ↦ (record s { ls = m₁ }, locks₁, rw e refl, sound, le)
        | inr (inl (e, _)) ↦ (record s { ls = m₁ }, locks₁, rw e refl, sound, le)
        | inr (inr (n, f, e, done)) ↦ (
          record s { ls = f },
          locks₁,
          rw e refl,
          record {
            consistent = Touched-IsConsistent c.consistent done.member done.touched;
            issued = Touched-IsIssued c.consistent done.member done.touched sound.issued;
            holding = IsHolding-refresh done.touched done.free done.still_free sound.holding;
          },
          omega (arith, c.gen, done.touched.gen),
        )
      ]

  unlock-Goes : (now : ℕ) (token : Bytes) → Goes (unlock_lock now token) s
  unfolding apply
  unlock-Goes now token =
      let (m₁, locks₁, c, r) = unlock-Unlocked now token s.ls locks h.consistent in
      let (sound, le) = same_locks c in
      elim r [
        | inl (e, _) ↦ (record s { ls = m₁ }, locks₁, rw e refl, sound, le)
        | inr (inl (e, _)) ↦ (record s { ls = m₁ }, locks₁, rw e refl, sound, le)
        | inr (inr (n, f, e, done)) ↦ (
          record s { ls = f },
          erase n locks₁,
          rw e refl,
          record {
            consistent = done.consistent;
            issued = record {
              gen = rw done.gen sound.issued.gen;
              issued = λ k i.
                  let (g, t, small) = sound.issued.issued k (In-erase k n locks₁ i) in
                  let ne : k ≢ n = λ q. not-In-erase n locks₁ c.consistent.distinct (rw q at i) in
                  (g, (done.kept k ne).token ∙ t, rw done.gen small);
            };
            holding = IsHolding-unlock c.consistent done sound.holding;
          },
          omega (arith, c.gen, done.gen),
        )
      ]

  confirm-Goes :
      (now : ℕ) (name0 name1 : Bytes) (conditions : List Condition)
      → Goes (confirm_locks now name0 name1 conditions) s
  unfolding apply
  confirm-Goes now name0 name1 conditions =
      let (m₁, locks₁, c, r) =
        confirm-Confirmed now name0 name1 conditions s.ls locks h.consistent in
      let (sound, le) = same_locks c in
      elim r [
        | inl (e, _) ↦ (record s { ls = m₁ }, locks₁, rw e refl, sound, le)
        | inr (held, f, e, done) ↦ (
          record { ls = f; out = held ∷ s.out },
          locks₁,
          rw e refl,
          record {
            consistent = done.marked.consistent;
            issued = done.marked.issued sound.issued;
            holding = IsHolding-confirm done sound.holding;
          },
          omega (arith, c.gen, done.marked.gen),
        )
      ]

  held_marked :
      (o : Option ℕ) → ((n : ℕ) → count_one n o ≤ holders n s.out) → AllMarked true s.ls locks o
  held_marked none le = tt
  held_marked (some n) le = h.holding.held n (ground (arith, le n, ==_refl n))

  release-Goes : (i : ℕ) → Goes (release_at i) s
  unfolding apply
  release-Goes i = elim (Option-cases (take_out i s.out)) [
    | inl e ↦ (s, locks, rw (e, apply) refl, h, omega arith)
    | inr ((held, rest), e) ↦
        let split = holders-take_out i s.out held rest e in
        let (f, v, done) =
          release-Marked held s.ls locks h.consistent
            (λ n. omega (arith, split n, h.holding.once n))
            (held_marked held.0 (λ n. omega (arith, split n)))
            (held_marked held.1 (λ n. omega (arith, split n))) in
        (
          record { ls = f; out = rest },
          locks,
          rw (e, apply, ◌>>=◌, v) refl,
          record {
            consistent = done.consistent;
            issued = done.issued h.issued;
            holding = IsHolding-release held split done h.holding;
          },
          omega (arith, done.gen),
        )
  ]

  apply-Goes : (c : Call) → s.ls.gen + 1 < 2 ^ 64 → Goes c s
  apply-Goes (create now d) room = create-Goes now d room
  apply-Goes (refresh_lock now token d) room = refresh-Goes now token d
  apply-Goes (unlock_lock now token) room = unlock-Goes now token
  apply-Goes (confirm_locks now name0 name1 conditions) room =
      confirm-Goes now name0 name1 conditions
  apply-Goes (release_at i) room = release-Goes i

run-IsSound :
    (calls : List Call) {s : System} {locks : List ℕ}
    → IsSound s locks
    → s.ls.gen + length calls < 2 ^ 64
    → (s' : System) × (locks' : List ℕ) × (run calls s ≡ some s') × IsSound s' locks'
unfolding run
run-IsSound [] {s} {locks} h room = (s, locks, refl, h)
run-IsSound (c ∷ calls) {s} h room =
    let (s₁, locks₁, e, h₁, le) = apply-Goes h c (omega arith) in
    let (s', locks', e', h') = run-IsSound calls h₁ (omega arith) in
    (s', locks', rw (e, ◌>>=◌) e', h')

pub start-IsSound : (unix : ℕ) → unix < 2 ^ 64 → IsSound (start unix) []
unfolding holders refs
start-IsSound unix room = record {
  consistent = record {
    counted = record { absent = λ x e. refl; present = λ x n e. cc };
    distinct = tt;
    lock = λ n i. absurd i;
    token = λ t n e. cc;
    unlocked = λ x n e. cc;
    idle = λ x n e e'. cc;
    queue = tt;
    in_queue = λ n i. absurd i;
    queued = λ n i e. absurd i;
    exclusive = λ a b i j ne. absurd i;
  };
  issued = record { gen = room; issued = λ n i. absurd i };
  holding = record {
    once = λ n. omega arith;
    held = λ n lt. absurd (omega arith);
    all = λ n i e. absurd i;
  };
}

-- From a new lock system, whatever calls are made in whatever order, with whatever names, tokens and
-- clock readings, none panics: every walk finds its nodes, and no node is held twice or released
-- when it is not held. At the end no two locks overlap, and exactly the locks that a Confirm holds
-- and has not released are marked as held. At most 2^64 - 1 - unix calls are made.
pub run_safe :
    (unix : ℕ) (calls : List Call)
    → unix + length calls < 2 ^ 64
    → (s : System) × (locks : List ℕ) × (run calls (start unix) ≡ some s) × IsSound s locks
run_safe unix calls room = run-IsSound calls (start-IsSound unix (omega arith)) room
