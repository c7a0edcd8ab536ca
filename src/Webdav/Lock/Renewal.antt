-- ===== src/Webdav/Lock/Renewal.antt =====
-- The end of Refresh gives one lock a new duration and a new deadline.
use cloudreve.Prelude.{
  ℕ, ◌≡◌, ◌≢◌, refl, true, false, List, inl, inr, ℤ, arith, nonneg, Bool-cases, if◌then◌else◌,
}
use cloudreve.Webdav.Lock.State.{MemLs, pull, push, add}
use cloudreve.Webdav.Lock.Methods.{renew}
use cloudreve.Webdav.Lock.Members.{
  In, Distinct, In-erase, In-erase_ne, not-In-erase, Distinct-erase,
}
use cloudreve.Webdav.Lock.Consistent.{IsConsistent}
use cloudreve.Webdav.Lock.Touch.{Touched}

-- The lock out of the queue, whether or not it was in it.
record Unqueued (n : ℕ) (m g : MemLs) : Type 0 where
  by_name : g.by_name ≡ m.by_name
  by_token : g.by_token ≡ m.by_token
  gen : g.gen ≡ m.gen
  fresh : g.fresh ≡ m.fresh
  nodes : (k : ℕ) → k ≢ n → g.nodes k ≡ m.nodes k
  details : (g.nodes n).details ≡ (m.nodes n).details
  token : (g.nodes n).token ≡ (m.nodes n).token
  count : (g.nodes n).ref_count ≡ (m.nodes n).ref_count
  held : (g.nodes n).held ≡ (m.nodes n).held
  queued : (g.nodes n).queued ≡ false
  distinct : Distinct g.by_expiry
  out : ¬ In n g.by_expiry
  rest : (k : ℕ) → k ≢ n → In k g.by_expiry → In k m.by_expiry
  rest_queued : (k : ℕ) → k ≢ n → In k m.by_expiry → In k g.by_expiry

abbrev unqueue : ℕ → MemLs → MemLs
unqueue n m = if (m.nodes n).queued then pull n m else m

module _ {m : MemLs} {locks : List ℕ} (h : IsConsistent m locks) (n : ℕ) (i : In n locks) where
  unqueue-Unqueued : Unqueued n m (unqueue n m)
  unfolding pull
  unqueue-Unqueued = elim (Bool-cases (m.nodes n).queued) [
    | inl e ↦ rw e (record {
      by_name = refl;
      by_token = refl;
      gen = refl;
      fresh = refl;
      nodes = λ k ne. ground arith;
      details = ground arith;
      token = ground arith;
      count = ground arith;
      held = ground arith;
      queued = ground arith;
      distinct = Distinct-erase n m.by_expiry h.queue;
      out = not-In-erase n m.by_expiry h.queue;
      rest = λ k ne j. In-erase k n m.by_expiry j;
      rest_queued = λ k ne j. In-erase_ne k n m.by_expiry j ne;
    })
    | inr e ↦ rw e (record {
      by_name = refl;
      by_token = refl;
      gen = refl;
      fresh = refl;
      nodes = λ k ne. refl;
      details = refl;
      token = refl;
      count = refl;
      held = refl;
      queued = e;
      distinct = h.queue;
      out = λ j. ground (arith, h.in_queue n j);
      rest = λ k ne j. j;
      rest_queued = λ k ne j. j;
    })
  ]

  -- The renewed lock has the new duration, and waits until `now` plus that if it can expire.
  pub renew_lem :
      (now : ℕ) (duration : ℤ)
      → (m.nodes n).held ≡ false
      → Touched n m (renew now n duration m)
        × (((renew now n duration m).nodes n).details.duration ≡ duration)
        × (nonneg duration ≡ true → ((renew now n duration m).nodes n).expiry ≡ add now duration)
        × (((renew now n duration m).nodes n).held ≡ false)
  unfolding renew push
  renew_lem now duration free =
      let u = unqueue-Unqueued in
      elim (Bool-cases (nonneg duration)) [
        | inl e ↦ rw e (
          (record {
            by_name = u.by_name;
            by_token = u.by_token;
            gen = u.gen;
            fresh = u.fresh;
            other = λ k ne. ground (arith, u.nodes k ne);
            root = ground (arith, u.details);
            zero_depth = ground (arith, u.details);
            token = ground (arith, u.token);
            count = ground (arith, u.count);
            waits = ground (arith, u.held);
            distinct = (u.out, u.distinct);
            self = λ j. ground arith;
            self_queued = λ w. inl refl;
            rest = λ k ne j. ground (arith, u.rest k ne);
            rest_queued = λ k ne j. inr (u.rest_queued k ne j);
          }),
          ground arith,
          λ w. ground arith,
          ground (arith, u.held),
        )
        | inr e ↦ rw e (
          (record {
            by_name = u.by_name;
            by_token = u.by_token;
            gen = u.gen;
            fresh = u.fresh;
            other = λ k ne. ground (arith, u.nodes k ne);
            root = ground (arith, u.details);
            zero_depth = ground (arith, u.details);
            token = ground (arith, u.token);
            count = ground (arith, u.count);
            waits = ground (arith, u.queued);
            distinct = u.distinct;
            self = λ j. absurd (u.out j);
            self_queued = λ w. ground (arith, u.queued);
            rest = λ k ne j. u.rest k ne j;
            rest_queued = λ k ne j. u.rest_queued k ne j;
          }),
          ground arith,
          λ w. ground arith,
          ground (arith, u.held),
        )
      ]
