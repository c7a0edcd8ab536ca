-- ===== src/Webdav/Lock/Holding.antt =====
-- `hold`, `unhold` and the end of Refresh change one lock.
use cloudreve.Prelude.{ℕ, ◌≡◌, refl, true, false, some, List, inl, inr, arith, nonneg, Bool-cases}
use cloudreve.Webdav.Lock.State.{MemLs, pull, push, set_node}
use cloudreve.Webdav.Lock.Methods.{hold, unhold}
use cloudreve.Webdav.Lock.Members.{In, In-erase, In-erase_ne, not-In-erase, Distinct-erase}
use cloudreve.Webdav.Lock.Consistent.{IsConsistent}
use cloudreve.Webdav.Lock.Touch.{Touched}

module _ {m : MemLs} {locks : List ℕ} (h : IsConsistent m locks) (n : ℕ) (i : In n locks) where
  out_of_queue : (m.nodes n).queued ≡ false → ¬ In n m.by_expiry
  out_of_queue q j = ground (arith, h.in_queue n j)

  -- `hold` does not panic at a lock that is not held; it takes the lock out of the expiry queue.
  pub hold_lem :
      (m.nodes n).held ≡ false
      → (f : MemLs) × (hold n m ≡ some f) × Touched n m f × ((f.nodes n).held ≡ true)
  unfolding hold pull
  hold_lem free = elim (Bool-cases (nonneg (m.nodes n).details.duration)) [
    | inl e ↦
        let q : (m.nodes n).queued ≡ true = ground (arith, (h.lock n i).waits) in
        (
          pull n (set_node m n (record (m.nodes n) { held = true })),
          rw (free, e, q) refl,
          record {
            by_name = refl;
            by_token = refl;
            gen = refl;
            fresh = refl;
            other = λ k ne. ground arith;
            root = ground arith;
            zero_depth = ground arith;
            token = ground arith;
            count = ground arith;
            waits = ground arith;
            distinct = Distinct-erase n m.by_expiry h.queue;
            self = λ j. absurd (not-In-erase n m.by_expiry h.queue j);
            self_queued = λ w. absurd (ground arith);
            rest = λ k ne j. In-erase k n m.by_expiry j;
            rest_queued = λ k ne j. In-erase_ne k n m.by_expiry j ne;
          },
          ground arith,
        )
    | inr e ↦
        let q : (m.nodes n).queued ≡ false = ground (arith, (h.lock n i).waits) in
        (
          set_node m n (record (m.nodes n) { held = true }),
          rw (free, e) refl,
          record {
            by_name = refl;
            by_token = refl;
            gen = refl;
            fresh = refl;
            other = λ k ne. ground arith;
            root = ground arith;
            zero_depth = ground arith;
            token = ground arith;
            count = ground arith;
            waits = ground arith;
            distinct = h.queue;
            self = λ j. absurd (out_of_queue q j);
            self_queued = λ w. absurd (ground arith);
            rest = λ k ne j. j;
            rest_queued = λ k ne j. j;
          },
          ground arith,
        )
  ]

  -- `unhold` does not panic at a lock that is held; it puts the lock back into the queue if it can
  -- expire.
  pub unhold_lem :
      (m.nodes n).held ≡ true
      → (f : MemLs) × (unhold n m ≡ some f) × Touched n m f × ((f.nodes n).held ≡ false)
  unfolding unhold push
  unhold_lem held =
      let q : (m.nodes n).queued ≡ false = ground (arith, (h.lock n i).waits) in
      elim (Bool-cases (nonneg (m.nodes n).details.duration)) [
        | inl e ↦ (
          push n (set_node m n (record (m.nodes n) { held = false })),
          rw (held, e) refl,
          record {
            by_name = refl;
            by_token = refl;
            gen = refl;
            fresh = refl;
            other = λ k ne. ground arith;
            root = ground arith;
            zero_depth = ground arith;
            token = ground arith;
            count = ground arith;
            waits = ground arith;
            distinct = (out_of_queue q, h.queue);
            self = λ j. ground arith;
            self_queued = λ w. inl refl;
            rest = λ k ne j. ground arith;
            rest_queued = λ k ne j. inr j;
          },
          ground arith,
        )
        | inr e ↦ (
          set_node m n (record (m.nodes n) { held = false }),
          rw (held, e) refl,
          record {
            by_name = refl;
            by_token = refl;
            gen = refl;
            fresh = refl;
            other = λ k ne. ground arith;
            root = ground arith;
            zero_depth = ground arith;
            token = ground arith;
            count = ground arith;
            waits = ground arith;
            distinct = h.queue;
            self = λ j. absurd (out_of_queue q j);
            self_queued = λ w. absurd (ground arith);
            rest = λ k ne j. j;
            rest_queued = λ k ne j. j;
          },
          ground arith,
        )
      ]
