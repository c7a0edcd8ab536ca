-- ===== src/Webdav/Lock/Confirms.antt =====
-- What Confirm and the release of a Confirm promise, from a consistent lock system.
use mathlib.Core.Path.{fun_ext}
use cloudreve.Prelude.{
  ℕ, ◌+◌, ◌<◌, ◌≤◌, ◌≡◌, ◌≢◌, refl, true, false, Option, none, some, List, [], ◌⊎◌, inl, inr, Bytes,
  eqb_cases, ==→≡, arith, Option-cases, Bool-cases, if◌then◌else◌, ◌>>=◌, ltb, ltb→lt, ltb→le,
}
use cloudreve.Webdav.Path.{slash_clean}
use cloudreve.Webdav.Lock.State.{MemLs, Condition, ok, failed, confirmation_failed}
use cloudreve.Webdav.Lock.Methods.{
  lookup, claim, claim_both, same_node, Held, each, hold, confirm, release,
}
use cloudreve.Webdav.Lock.Members.{In}
use cloudreve.Webdav.Lock.Consistent.{IsConsistent}
use cloudreve.Webdav.Lock.Collect.{Collected, collect_expired_nodes_lem}
use cloudreve.Webdav.Lock.Claims.{Claimed, lookup-Claimed, Finds, lookup-Finds}
use cloudreve.Webdav.Lock.Marks.{
  count_one, count_held, Marked, AllMarked, hold-each, unhold-each, Marked-both, AllMarked-other,
  apart_lem,
}

-- A name that asks for no lock is empty; else the lock has been found for it, by the first of the
-- conditions that names a lock which is free and covers the name.
abbrev pub Claim : MemLs → List ℕ → List Condition → Bytes → Option ℕ → Type 0
Claim m locks conditions name none = name ≡ []
Claim m locks conditions name (some n) =
    Claimed m locks (slash_clean name) n × Finds m (slash_clean name) conditions (some n)

-- No condition names a lock that is free and covers the name.
abbrev pub NoClaim : MemLs → Bytes → List Condition → Type 0
NoClaim m name conditions = (name ≢ []) × Finds m (slash_clean name) conditions none

claim_cases :
    (m : MemLs) (locks : List ℕ) (name : Bytes) (conditions : List Condition)
    → IsConsistent m locks
    → ((o : Option ℕ) × (claim m name conditions ≡ ok o) × Claim m locks conditions name o)
      ⊎ ((claim m name conditions ≡ failed confirmation_failed) × NoClaim m name conditions)
unfolding claim
claim_cases m locks name conditions h = elim (eqb_cases name []) [
  | inl (p, q) ↦ inl (none, rw q refl, p)
  | inr (p, q) ↦ elim (Option-cases (lookup m (slash_clean name) conditions)) [
    | inl e ↦ inr (rw (q, e) refl, (p, rw e at (lookup-Finds m (slash_clean name) conditions)))
    | inr (n, e) ↦ inl (
      some n,
      rw (q, e) refl,
      (
        lookup-Claimed m locks (slash_clean name) conditions n h e,
        rw e at (lookup-Finds m (slash_clean name) conditions),
      ),
    )
  ]
]

Claim-free :
    (m : MemLs) (locks : List ℕ) (conditions : List Condition) (name : Bytes) (o : Option ℕ)
    → Claim m locks conditions name o
    → AllMarked false m locks o
Claim-free m locks conditions name none c = tt
Claim-free m locks conditions name (some n) c = (c.0.member, c.0.free)

-- Confirm holds the locks `held`, each once, and each was free.
pub record Confirmed (m : MemLs) (locks : List ℕ) (conditions : List Condition)
    (name0 name1 : Bytes) (held : Held) (f : MemLs) : Type 0 where
  pub marked : Marked true (λ k. count_held k held) m locks f
  pub once : (n : ℕ) → count_held n held ≤ 1
  pub member : (n : ℕ) → 0 < count_held n held → In n locks × ((m.nodes n).held ≡ false)
  pub first : Claim m locks conditions name0 held.0
  pub second : Claim m locks conditions name1 held.1 ⊎ Claim m locks conditions name1 held.0

module _ (m : MemLs) (locks : List ℕ) (h : IsConsistent m locks) (conditions : List Condition)
    (name0 name1 : Bytes) where
  counted_member :
      (o : Option ℕ) (n : ℕ)
      → AllMarked false m locks o
      → 0 < count_one n o
      → In n locks × ((m.nodes n).held ≡ false)
  counted_member none n a lt = absurd (omega arith)
  counted_member (some k) n a lt = ground (arith, ==→≡ k n)

  once_each : (o0 o1 : Option ℕ) → same_node o1 o0 ≡ false → (n : ℕ) → count_held n (o0, o1) ≤ 1
  once_each none none d n = omega arith
  once_each (some a) none d n = ground arith
  once_each none (some b) d n = ground arith
  once_each (some a) (some b) d n = ground arith

  hold_both :
      (held : Held)
      → ((n : ℕ) → count_held n held ≤ 1)
      → AllMarked false m locks held.1
      → Claim m locks conditions name0 held.0
      → (Claim m locks conditions name1 held.1 ⊎ Claim m locks conditions name1 held.0)
      → (g f : MemLs) × (each hold held.0 m ≡ some g)
        × (each hold held.1 g ≡ some f)
        × Confirmed m locks conditions name0 name1 held f
  hold_both (o0, o1) once a1 c0 c1 =
      let a0 = Claim-free m locks conditions name0 o0 c0 in
      let (g, e, p) = hold-each o0 m locks h a0 in
      let apart : (n : ℕ) → o1 ≡ some n → count_one n o0 ≡ 0 =
        λ n q. let t = once n in apart_lem o0 o1 n q t in
      let (f, e', q) = hold-each o1 g locks p.consistent (AllMarked-other false p o1 apart a1) in
      (
        g,
        f,
        e,
        e',
        record {
          marked = Marked-both p q;
          once = once;
          member = λ n lt. elim (Bool-cases (ltb 0 (count_one n o0))) [
            | inl t ↦ counted_member o0 n a0 (ltb→lt 0 _ t)
            | inr t ↦ counted_member o1 n a1 (omega (arith, ltb→le 0 (count_one n o0) t))
          ];
          first = c0;
          second = c1;
        },
      )

  join_claims :
      (o0 o1 : Option ℕ)
      → Claim m locks conditions name0 o0
      → Claim m locks conditions name1 o1
      → (g f : MemLs) × (each hold o0 m ≡ some g)
        × (each hold (if same_node o1 o0 then none else o1) g ≡ some f)
        × Confirmed m locks conditions name0 name1 (o0, (if same_node o1 o0 then none else o1)) f
  join_claims o0 o1 c0 c1 = elim (Bool-cases (same_node o1 o0)) [
    | inr d ↦ rw d (
        hold_both (o0, o1) (once_each o0 o1 d) (Claim-free m locks conditions name1 o1 c1) c0
          (inl c1))
    | inl d ↦ rw d (hold_both (o0, none) (once_one o0) tt c0 (shared o0 o1 d c1))
  ]
    where
      once_one : (o : Option ℕ) (n : ℕ) → count_one n o + 0 ≤ 1
      once_one none n = omega arith
      once_one (some k) n = ground arith

      shared :
          (a b : Option ℕ)
          → same_node b a ≡ true
          → Claim m locks conditions name1 b
          → Claim m locks conditions name1 none ⊎ Claim m locks conditions name1 a
      shared none none d c = inl c
      shared none (some b) d c = absurd (ground arith)
      shared (some a) none d c = absurd (ground arith)
      shared (some a) (some b) d c = inr (rw (==→≡ b a d) at c)

-- How a call of this method ends: the locks that have not expired, and its answers.
abbrev pub ConfirmEnds : ℕ → Bytes → Bytes → List Condition → MemLs → List ℕ → Type 0
ConfirmEnds now name0 name1 conditions m locks =
    (m₁ : MemLs) × (locks₁ : List ℕ) × Collected now m locks m₁ locks₁
    × (((confirm now name0 name1 conditions m ≡ some (failed confirmation_failed, m₁))
          × (NoClaim m₁ name0 conditions ⊎ NoClaim m₁ name1 conditions))
        ⊎ ((held : Held) × (f : MemLs) × (confirm now name0 name1 conditions m ≡ some (ok held, f))
            × Confirmed m₁ locks₁ conditions name0 name1 held f))

-- From a consistent system Confirm never panics. Either it fails, and for one of the two names, which
-- is not empty, each condition names no lock, a lock that is held, or one that does not cover the
-- name; or each name that is not empty is covered by the lock of the first condition that names a
-- lock which was free and covers it, and exactly these locks are now held, each once.
pub confirm-Confirmed :
    (now : ℕ) (name0 name1 : Bytes) (conditions : List Condition) (m : MemLs) (locks : List ℕ)
    → IsConsistent m locks
    → ConfirmEnds now name0 name1 conditions m locks
unfolding confirm claim_both
confirm-Confirmed now name0 name1 conditions m locks h =
    let (m₁, locks₁, e, c) = collect_expired_nodes_lem now m locks h in
    (
      m₁,
      locks₁,
      c,
      elim (claim_cases m₁ locks₁ name0 conditions c.consistent) [
        | inr (v, failed0) ↦ inl (rw (e, ◌>>=◌, v) refl, inl failed0)
        | inl (o0, v, c0) ↦ elim (claim_cases m₁ locks₁ name1 conditions c.consistent) [
          | inr (w, failed1) ↦ inl (rw (e, ◌>>=◌, v, w) refl, inr failed1)
          | inl (o1, w, c1) ↦
              let (g, f, p, q, r) =
                join_claims m₁ locks₁ c.consistent conditions name0 name1 o0 o1 c0 c1 in
              inr (_, f, rw (e, ◌>>=◌, v, w, p, ◌>>=◌, q) refl, r)
        ]
      ],
    )

-- The release of nodes that are held, each once, never panics, and frees exactly them.
pub release-Marked :
    (held : Held) (m : MemLs) (locks : List ℕ)
    → IsConsistent m locks
    → ((n : ℕ) → count_held n held ≤ 1)
    → AllMarked true m locks held.0
    → AllMarked true m locks held.1
    → (f : MemLs) × (release held m ≡ some f) × Marked false (λ k. count_held k held) m locks f
unfolding release
release-Marked (o0, o1) m locks h once a0 a1 =
    let (g, e, p) = unhold-each o1 m locks h a1 in
    let apart : (n : ℕ) → o0 ≡ some n → count_one n o1 ≡ 0 =
      λ n q. apart_lem o1 o0 n q (omega (arith, once n)) in
    let (f, e', q) = unhold-each o0 g locks p.consistent (AllMarked-other true p o0 apart a0) in
    (f, rw (e, ◌>>=◌) e', rw (fun_ext swapped) (Marked-both p q))
  where
    swapped : (k : ℕ) → count_held k (o0, o1) ≡ count_one k o1 + count_one k o0
    swapped k = omega arith
