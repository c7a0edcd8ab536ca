-- ===== src/Webdav/Lock/Collect.antt =====
-- collectExpiredNodes ends exactly the locks that have expired.
use cloudreve.Prelude.{
  ℕ, zero, suc, ◌<◌, ◌≤◌, ◌≡◌, ◌≢◌, refl, ◌∙◌, ap, Bool, true, false, not, ◌&&◌, none, some, List,
  [], ◌∷◌, ◌⊎◌, inl, inr, ltb, ltb→lt, ltb→le, length, arith, Option-cases, Bool-cases,
}
use native.Mathlib.Decide.{ℕ_discrete}
use cloudreve.Webdav.Lock.State.{Node, MemLs, earliest, erase}
use cloudreve.Webdav.Lock.Methods.{collect_loop, collect_expired_nodes}
use cloudreve.Webdav.Lock.Counts.{SameLock}
use cloudreve.Webdav.Lock.Members.{In, In-erase, In-erase_ne, not-In-erase, length-erase}
use cloudreve.Webdav.Lock.Consistent.{IsConsistent}
use cloudreve.Webdav.Lock.Removal.{Removed}
use cloudreve.Webdav.Lock.Removal.Keeps.{remove_lem}

earliest-none : (nodes : ℕ → Node) (ns : List ℕ) → earliest nodes ns ≡ none → ns ≡ []
unfolding earliest
earliest-none nodes [] e = refl
earliest-none nodes (n ∷ ns) e = ground arith

earliest-le :
    (nodes : ℕ → Node) (ns : List ℕ) (k : ℕ)
    → earliest nodes ns ≡ some k
    → In k ns × ((a : ℕ) → In a ns → (nodes k).expiry ≤ (nodes a).expiry)
unfolding earliest
earliest-le nodes [] k e = ground arith
earliest-le nodes (n ∷ ns) k e = elim (Option-cases (earliest nodes ns)) [
  | inl e' ↦ let p : ns ≡ [] = earliest-none nodes ns e' in (ground arith, λ a i. ground (arith, p))
  | inr (j, e') ↦
      let (i, least) = earliest-le nodes ns j e' in (ground arith, λ a ia. ground (arith, least a))
]

-- `f`, with the locks `locks'`, is `m` without the locks that have expired by `now`.
pub record Collected (now : ℕ) (m : MemLs) (locks : List ℕ) (f : MemLs) (locks' : List ℕ)
    : Type 0 where
  pub consistent : IsConsistent f locks'
  pub gen : f.gen ≡ m.gen
  pub kept : (n : ℕ) → In n locks' → In n locks × SameLock (f.nodes n) (m.nodes n)
  pub alive : (n : ℕ) → In n locks' → (f.nodes n).queued ≡ true → now < (f.nodes n).expiry
  pub ended :
      (n : ℕ)
      → In n locks
      → In n locks' ⊎ (((m.nodes n).queued ≡ true) × ((m.nodes n).expiry ≤ now))

not_held : (q d h : Bool) → q ≡ (d && not h) → q ≡ true → h ≡ false
not_held q d h e t = ground arith

nothing_expired :
    (now : ℕ) (m : MemLs) (locks : List ℕ)
    → IsConsistent m locks
    → ((n : ℕ) → In n m.by_expiry → now < (m.nodes n).expiry)
    → Collected now m locks m locks
nothing_expired now m locks h late = record {
  consistent = h;
  gen = refl;
  kept = λ n i. (i, ground arith);
  alive = λ n i q. late n (h.queued n i q);
  ended = λ n i. inl i;
}

-- One round: the node that expires first has expired, and is removed.
expired_first :
    (now : ℕ) (m f g : MemLs) (locks locks' : List ℕ) (n : ℕ)
    → (m.nodes n).queued ≡ true
    → (m.nodes n).expiry ≤ now
    → IsConsistent m locks
    → Removed n m f
    → Collected now f (erase n locks) g locks'
    → Collected now m locks g locks'
expired_first now m f g locks locks' n q late h r c = record {
  consistent = c.consistent;
  gen = c.gen ∙ r.gen;
  kept = λ k i.
      let (j, s) = c.kept k i in
      let ne : k ≢ n = λ p. not-In-erase n locks h.distinct (rw p at j) in
      (In-erase k n locks j, ground (arith, r.other k ne));
  alive = c.alive;
  ended = λ k i. elim (ℕ_discrete k n) [
    | yes p ↦ inr (rw p (q, late))
    | no p ↦ ground (arith, r.other k p, c.ended k (In-erase_ne k n locks i p))
  ];
}

collect_loop_lem :
    (fuel now : ℕ) (m : MemLs) (locks : List ℕ)
    → IsConsistent m locks
    → length m.by_expiry ≤ fuel
    → (f : MemLs) × (locks' : List ℕ) × (collect_loop fuel now m ≡ some f)
      × Collected now m locks f locks'
unfolding collect_loop
collect_loop_lem zero now m locks h short = (
  m,
  locks,
  refl,
  nothing_expired now m locks h (λ n i. absurd (empty_queue m.by_expiry n i short)),
)
  where
    empty_queue : (l : List ℕ) (n : ℕ) → In n l → length l ≤ 0 → ⊥
    empty_queue [] n i le = i
    empty_queue (x ∷ l) n i le = omega arith
collect_loop_lem (suc fuel) now m locks h short =
    elim (Option-cases (earliest m.nodes m.by_expiry)) [
      | inl e ↦ (
        m,
        locks,
        rw (e, collect_loop) refl,
        nothing_expired now m locks h
            (λ n i. absurd (rw (earliest-none m.nodes m.by_expiry e) at i)),
      )
      | inr (n, e) ↦
          let (i, least) = earliest-le m.nodes m.by_expiry n e in
          elim (Bool-cases (ltb now (m.nodes n).expiry)) [
            | inl before ↦ (
              m,
              locks,
              rw (e, collect_loop, before) refl,
              nothing_expired now m locks h
                  (λ a ia. omega (arith, ltb→lt now (m.nodes n).expiry before, least a ia)),
            )
            | inr due ↦
                let (l, q) = h.in_queue n i in
                let (f, er, hf, r) =
                  remove_lem m locks n h l (not_held _ _ _ (h.lock n l).waits q) in
                let (g, locks', eg, c) =
                  collect_loop_lem fuel now f (erase n locks) hf
                    (omega (arith, ap length (r.pulled q), length-erase n m.by_expiry i)) in
                (
                  g,
                  locks',
                  rw (e, collect_loop, due, er) eg,
                  expired_first now m f g locks locks' n q (ltb→le now _ due) h r c,
                )
          ]
    ]

-- In a consistent system collectExpiredNodes never panics, ends every lock that waits in the queue
-- and has expired, ends no other, and leaves the system consistent.
pub collect_expired_nodes_lem :
    (now : ℕ) (m : MemLs) (locks : List ℕ)
    → IsConsistent m locks
    → (f : MemLs) × (locks' : List ℕ) × (collect_expired_nodes now m ≡ some f)
      × Collected now m locks f locks'
unfolding collect_expired_nodes
collect_expired_nodes_lem now m locks h =
    collect_loop_lem (length m.by_expiry) now m locks h (omega arith)
