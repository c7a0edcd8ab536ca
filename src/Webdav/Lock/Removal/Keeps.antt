-- ===== src/Webdav/Lock/Removal/Keeps.antt =====
-- `remove` keeps the invariant for the other locks.
use native.Mathlib.Decide.{ℕ_discrete}
use cloudreve.Prelude.{
  ℕ, ◌≡◌, ◌≢◌, sym, ◌∙◌, false, none, some, List, [], ◌⊎◌, inl, inr, Bytes, eqb, eqb→≡, eqb_refl,
  arith,
}
use cloudreve.Webdav.Lock.State.{MemLs, assign, remove, erase}
use cloudreve.Webdav.Lock.Counts.{IsCounted, IsCounted-cong, SameLock}
use cloudreve.Webdav.Lock.Drops.{named_of_count}
use cloudreve.Webdav.Lock.Members.{In, In-erase, In-erase_ne, not-In-erase, Distinct-erase}
use cloudreve.Webdav.Lock.Consistent.{refs, IsLock, IsConsistent}
use cloudreve.Webdav.Lock.Refs.{refs-cong, refs-pos}
use cloudreve.Webdav.Lock.Removal.{
  Removed, remove_walk, after_walk-Removed, after_walk, after_walk-IsCounted,
}

-- The invariant of the lock that is removed: no Confirm holds it.
module _ {m f : MemLs} {locks : List ℕ} {n : ℕ} (h : IsConsistent m locks) (i : In n locks)
    (free : (m.nodes n).held ≡ false) (c : IsCounted f (refs m.nodes (erase n locks)))
    (r : Removed n m f) where
  rest_lock : (k : ℕ) → In k (erase n locks) → In k locks × (k ≢ n)
  rest_lock k j = (In-erase k n locks j, λ p. not-In-erase n locks h.distinct (rw p at j))

  Removed-IsCounted : IsCounted f (refs f.nodes (erase n locks))
  Removed-IsCounted =
      IsCounted-cong
        (λ x.
          refs-cong f.nodes m.nodes (erase n locks) x
            λ k j. ground (arith, r.other k (rest_lock k j).1))
        c

  Removed-IsLock : (k : ℕ) → In k (erase n locks) → IsLock f k
  Removed-IsLock k j =
      let (jn, ne) = rest_lock k j in
      let root : Bytes = (m.nodes k).details.root in
      let old : IsLock m k = h.lock k jn in
      let same : SameLock (f.nodes k) (m.nodes k) = r.other k ne in
      let (k', named) = named_of_count c root (refs-pos m.nodes k (erase n locks) j old.rooted) in
      record {
        has_token = λ p. old.has_token (sym same.token ∙ p);
        by_name = ground (arith, r.named root k' named);
        by_token =
            rw (r.by_token, same.token)
              (ground (arith, h.lock n i, eqb→≡ (m.nodes k).token (m.nodes n).token));
        rooted = rw same.details old.rooted;
        waits = ground arith;
      }

  Removed-token :
      (t : Bytes) (k : ℕ) → f.by_token t ≡ some k → In k (erase n locks) × ((f.nodes k).token ≡ t)
  Removed-token t k e =
      let e' : assign m.by_token (m.nodes n).token none t ≡ some k = rw r.by_token at e in
      let old : m.by_token t ≡ some k = ground arith in
      let differs : eqb t (m.nodes n).token ≡ false = ground arith in
      let (j, p) = h.token t k old in
      let ne : k ≢ n = λ q. ground (arith, eqb_refl t) in
      (In-erase_ne k n locks j ne, (r.other k ne).token ∙ p)

  Removed-unlocked :
      (x : Bytes) (k : ℕ) → f.by_name x ≡ some k → ((f.nodes k).token ≡ []) ⊎ In k (erase n locks)
  Removed-unlocked x k e = elim (ℕ_discrete k n) [
    | yes p ↦ inl (rw p r.token)
    | no p ↦ elim (h.unlocked x k (r.named x k e)) [
      | inl t ↦ inl ((r.other k p).token ∙ t)
      | inr j ↦ inr (In-erase_ne k n locks j p)
    ]
  ]

  Removed-idle :
      (x : Bytes) (k : ℕ)
      → f.by_name x ≡ some k
      → (f.nodes k).token ≡ []
      → ((f.nodes k).queued ≡ false) × ((f.nodes k).held ≡ false)
  Removed-idle x k e t = elim (ℕ_discrete k n) [
    | yes p ↦ rw p (r.queued, r.held ∙ free)
    | no p ↦ ground (arith, r.other k p, h.idle x k (r.named x k e))
  ]

  Removed-IsConsistent : IsConsistent f (erase n locks)
  Removed-IsConsistent = record {
    counted = Removed-IsCounted;
    distinct = Distinct-erase n locks h.distinct;
    lock = Removed-IsLock;
    token = Removed-token;
    unlocked = Removed-unlocked;
    idle = Removed-idle;
    queue = r.distinct;
    in_queue = λ k j.
        let (j', ne) = r.waiting k j in
        let (l, q) = h.in_queue k j' in (In-erase_ne k n locks l ne, (r.other k ne).queued ∙ q);
    queued = λ k j e.
        let (l, ne) = rest_lock k j in
        r.still_waiting k (h.queued k l (sym (r.other k ne).queued ∙ e)) ne;
    exclusive = λ a b ia ib ne.
        let (la, na) = rest_lock a ia in
        let (lb, nb) = rest_lock b ib in
        rw ((r.other a na).details, (r.other b nb).details) (h.exclusive a b la lb ne);
  }

-- Removing a lock that no Confirm holds never panics and keeps the invariant for the other locks.
pub remove_lem :
    (m : MemLs) (locks : List ℕ) (n : ℕ)
    → IsConsistent m locks
    → In n locks
    → (m.nodes n).held ≡ false
    → (f : MemLs) × (remove n m ≡ some f) × IsConsistent f (erase n locks) × Removed n m f
remove_lem m locks n h i free =
    let (m', e, c, s) = remove_walk m locks n h i in
    let r = after_walk-Removed m m' locks n h s in
    let c' : IsCounted (after_walk n m') (refs m.nodes (erase n locks)) =
      after_walk-IsCounted m' n c in
    (after_walk n m', e, Removed-IsConsistent h i free c' r, r)
