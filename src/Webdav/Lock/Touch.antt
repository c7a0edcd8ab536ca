-- ===== src/Webdav/Lock/Touch.antt =====
-- A change of one lock's deadline, duration or held mark keeps the invariant.
use native.Mathlib.Decide.{ℕ_discrete}
use cloudreve.Prelude.{
  ℕ, ◌≡◌, ◌≢◌, refl, sym, ◌∙◌, true, false, not, ◌&&◌, some, List, [], Bytes, nonneg,
}
use cloudreve.Webdav.Lock.State.{MemLs}
use cloudreve.Webdav.Lock.Counts.{IsCounted, IsCounted-cong, Points}
use cloudreve.Webdav.Lock.Members.{In, Distinct}
use cloudreve.Webdav.Lock.Refs.{refs-cong}
use cloudreve.Webdav.Lock.Consistent.{overlaps, refs, IsLock, IsConsistent, IsIssued}

-- Only the node `n` changes, and it keeps its place in the tree. The queue holds it exactly while it
-- can expire and is not held.
pub record Touched (n : ℕ) (m f : MemLs) : Type 0 where
  pub by_name : f.by_name ≡ m.by_name
  pub by_token : f.by_token ≡ m.by_token
  pub gen : f.gen ≡ m.gen
  pub fresh : f.fresh ≡ m.fresh
  pub other : (k : ℕ) → k ≢ n → f.nodes k ≡ m.nodes k
  pub root : (f.nodes n).details.root ≡ (m.nodes n).details.root
  pub zero_depth : (f.nodes n).details.zero_depth ≡ (m.nodes n).details.zero_depth
  pub token : (f.nodes n).token ≡ (m.nodes n).token
  pub count : (f.nodes n).ref_count ≡ (m.nodes n).ref_count
  pub waits : (f.nodes n).queued ≡ (nonneg (f.nodes n).details.duration && not (f.nodes n).held)
  pub distinct : Distinct f.by_expiry
  pub self : In n f.by_expiry → (f.nodes n).queued ≡ true
  pub self_queued : (f.nodes n).queued ≡ true → In n f.by_expiry
  pub rest : (k : ℕ) → k ≢ n → In k f.by_expiry → In k m.by_expiry
  pub rest_queued : (k : ℕ) → k ≢ n → In k m.by_expiry → In k f.by_expiry

module _ {m f : MemLs} {locks : List ℕ} {n : ℕ} (h : IsConsistent m locks) (i : In n locks)
    (r : Touched n m f) where
  -- What the invariant reads of a node stays.
  place :
      (k : ℕ)
      → ((f.nodes k).details.root ≡ (m.nodes k).details.root)
        × ((f.nodes k).details.zero_depth ≡ (m.nodes k).details.zero_depth)
        × ((f.nodes k).token ≡ (m.nodes k).token)
        × ((f.nodes k).ref_count ≡ (m.nodes k).ref_count)
  place k = elim (ℕ_discrete k n) [
    | yes p ↦ rw p (r.root, r.zero_depth, r.token, r.count)
    | no ne ↦ rw (r.other k ne) (refl, refl, refl, refl)
  ]

  points : (x : Bytes) (k v : ℕ) → Points m x k v → Points f x k v
  points x k v p = record {
    allocated = rw r.fresh p.allocated;
    root = (place k).0 ∙ p.root;
    count = (place k).3 ∙ p.count;
    positive = p.positive;
  }

  counted : IsCounted f (refs f.nodes locks)
  counted =
      IsCounted-cong (λ x. refs-cong f.nodes m.nodes locks x (λ k j. (place k).0))
        (record {
          absent = λ x e. h.counted.absent x (rw r.by_name at e);
          present = λ x k e. points x k _ (h.counted.present x k (rw r.by_name at e));
        })

  lock : (k : ℕ) → In k locks → IsLock f k
  lock k j =
      let old = h.lock k j in
      let (root, depth, token, count) = place k in
      record {
        has_token = λ q. old.has_token (sym token ∙ q);
        by_name = rw (r.by_name, root) old.by_name;
        by_token = rw (r.by_token, token) old.by_token;
        rooted = rw root old.rooted;
        waits = elim (ℕ_discrete k n) [
          | yes p ↦ rw p r.waits
          | no ne ↦ rw (r.other k ne) old.waits
        ];
      }

  idle :
      (x : Bytes) (k : ℕ)
      → f.by_name x ≡ some k
      → (f.nodes k).token ≡ []
      → ((f.nodes k).queued ≡ false) × ((f.nodes k).held ≡ false)
  idle x k e t = elim (ℕ_discrete k n) [
    | yes p ↦ absurd ((h.lock n i).has_token (sym r.token ∙ (rw p at t)))
    | no ne ↦ rw (r.other k ne) (h.idle x k (rw r.by_name at e) (sym (place k).2 ∙ t))
  ]

  in_queue : (k : ℕ) → In k f.by_expiry → In k locks × ((f.nodes k).queued ≡ true)
  in_queue k j = elim (ℕ_discrete k n) [
    | yes p ↦ rw p (i, r.self (rw p at j))
    | no ne ↦ rw (r.other k ne) (h.in_queue k (r.rest k ne j))
  ]

  queued : (k : ℕ) → In k locks → (f.nodes k).queued ≡ true → In k f.by_expiry
  queued k j q = elim (ℕ_discrete k n) [
    | yes p ↦ rw p (r.self_queued (rw p at q))
    | no ne ↦ r.rest_queued k ne (h.queued k j (rw (r.other k ne) at q))
  ]

  exclusive :
      (a b : ℕ)
      → In a locks
      → In b locks
      → a ≢ b
      → overlaps (f.nodes a).details (f.nodes b).details ≡ false
  unfolding overlaps
  exclusive a b ia ib ne =
      let (ra, za, _, _) = place a in
      let (rb, zb, _, _) = place b in rw (ra, za, rb, zb) (h.exclusive a b ia ib ne)

  pub Touched-IsConsistent : IsConsistent f locks
  Touched-IsConsistent = record {
    counted = counted;
    distinct = h.distinct;
    lock = lock;
    token = λ t k e. let (j, p) = h.token t k (rw r.by_token at e) in (j, (place k).2 ∙ p);
    unlocked = λ x k e. rw ((place k).2) (h.unlocked x k (rw r.by_name at e));
    idle = idle;
    queue = r.distinct;
    in_queue = in_queue;
    queued = queued;
    exclusive = exclusive;
  }

  pub Touched-IsIssued : IsIssued m locks → IsIssued f locks
  Touched-IsIssued s = record {
    gen = rw r.gen s.gen;
    issued = λ k j. let (g, e, le) = s.issued k j in (g, (place k).2 ∙ e, rw r.gen le);
  }
