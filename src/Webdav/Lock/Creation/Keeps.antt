-- ===== src/Webdav/Lock/Creation/Keeps.antt =====
-- A new lock that overlaps with none keeps the invariant.
use native.Mathlib.Decide.{ℕ_discrete}
use cloudreve.Prelude.{
  ℕ, ◌+◌, ◌≡◌, ◌≢◌, refl, sym, ◌∙◌, ap, true, false, some, List, [], ◌∷◌, ◌⊎◌, inl, inr, Bytes,
  eqb→≡, eqb_refl, eqb_cases, arith, nonneg, Bool-cases,
}
use cloudreve.Webdav.Path.Walk.{IsRooted, chain}
use cloudreve.Webdav.Lock.State.{LockDetails, Node, MemLs, assign}
use cloudreve.Webdav.Lock.Counts.{occurrences, IsCounted, IsCounted-cong, Points, Grows, SameLock}
use cloudreve.Webdav.Lock.Members.{In, Distinct}
use cloudreve.Webdav.Lock.Refs.{refs-cong}
use cloudreve.Webdav.Lock.Consistent.{overlaps, refs, IsLock, IsConsistent}
use cloudreve.Webdav.Lock.Creation.{Granted}

pub overlaps_comm : (a b : LockDetails) → overlaps a b ≡ false → overlaps b a ≡ false
unfolding overlaps
overlaps_comm a b h = ground (arith, eqb→≡ b.root a.root, eqb_refl a.root)

module _ {m m' f : MemLs} {locks : List ℕ} {n : ℕ} {d : LockDetails} {token : Bytes}
    (h : IsConsistent m locks) (rooted : IsRooted d.root)
    (apart : (k : ℕ) → In k locks → overlaps d (m.nodes k).details ≡ false)
    (c : IsCounted m' (λ x. occurrences x (chain d.root) + refs m.nodes locks x)) (g : Grows m m')
    (named : m'.by_name d.root ≡ some n) (nonempty : token ≢ [])
    (new : (k : ℕ) → In k locks → (m.nodes k).token ≢ token) (r : Granted d n token m' f) where
  -- The node of the new lock held none.
  vacant : ((m'.nodes n).token ≡ []) × ((m'.nodes n).queued ≡ false) × ((m'.nodes n).held ≡ false)
  unfolding overlaps
  vacant = elim (g.origin d.root n named) [
    | inr (le, lt) ↦ g.blank n le lt
    | inl old ↦
        let p = h.counted.present d.root n old in
        let s = g.kept n p.allocated in
        elim (h.unlocked d.root n old) [
          | inl t ↦ let (q, e) = h.idle d.root n old t in (s.token ∙ t, s.queued ∙ q, s.held ∙ e)
          | inr i ↦ absurd (ground (arith, apart n i, eqb_refl d.root))
        ]
  ]

  -- Another lock is as it was.
  pub same : (k : ℕ) → In k locks → (k ≢ n) × SameLock (f.nodes k) (m.nodes k)
  same k i =
      let l = h.lock k i in
      let p = h.counted.present (m.nodes k).details.root k l.by_name in
      let s = g.kept k p.allocated in
      let ne : k ≢ n = λ q. l.has_token (sym s.token ∙ (rw q vacant.0)) in (ne, rw (r.other k ne) s)

  -- The count of the node stands, and its name is that of the lock.
  new-Points : (x : Bytes) (k v : ℕ) → m'.by_name x ≡ some k → Points m' x k v → Points f x k v
  new-Points x k v e p = elim (ℕ_discrete k n) [
    | no ne ↦ record {
      allocated = rw r.fresh p.allocated;
      root = rw (r.other k ne) p.root;
      count = rw (r.other k ne) p.count;
      positive = p.positive;
    }
    | yes q ↦
        let p' = c.present d.root n named in
        record {
          allocated = rw r.fresh p.allocated;
          root = rw (q, r.details) (sym p'.root ∙ (rw q at (p.root)));
          count = rw (q, r.count) (rw q at (p.count));
          positive = p.positive;
        }
  ]

  sum :
      (x : Bytes) → refs f.nodes (n ∷ locks) x ≡ occurrences x (chain d.root) + refs m.nodes locks x
  unfolding refs
  sum x =
      let e : refs f.nodes locks x ≡ refs m.nodes locks x =
        refs-cong f.nodes m.nodes locks x
          (λ k i. ap (λ (a : LockDetails). a.root) (same k i).1.details) in
      rw (r.details, e) refl

  counted : IsCounted f (refs f.nodes (n ∷ locks))
  counted = IsCounted-cong sum (record {
    absent = λ x e. c.absent x (rw r.by_name at e);
    present = λ x k e.
        let e' : m'.by_name x ≡ some k = rw r.by_name at e in
        new-Points x k _ e' (c.present x k e');
  })

  lock : (k : ℕ) → In k (n ∷ locks) → IsLock f k
  lock k (inl p) = rw (← p) (record {
    has_token = λ q. nonempty (sym r.token_of ∙ q);
    by_name = rw (r.by_name, r.details) named;
    by_token = rw (r.by_token, r.token_of) (ground (arith, eqb_refl token));
    rooted = rw r.details rooted;
    waits = rw (r.queued, r.details, r.held, vacant.1, vacant.2) (ground arith);
  })
  lock k (inr i) =
      let (ne, s) = same k i in
      let old = h.lock k i in
      record {
        has_token = λ q. old.has_token (sym s.token ∙ q);
        by_name = rw (r.by_name, s.details) (g.named _ k old.by_name);
        by_token =
            rw (r.by_token, s.token, g.by_token)
              (ground (arith, eqb→≡ (m.nodes k).token token, new k i, old.by_token));
        rooted = rw s.details old.rooted;
        waits = ground (arith, old.waits);
      }

  token_lock :
      (t : Bytes) (k : ℕ) → f.by_token t ≡ some k → In k (n ∷ locks) × ((f.nodes k).token ≡ t)
  token_lock t k e =
      let e' : assign m.by_token token (some n) t ≡ some k = rw (r.by_token, g.by_token) at e in
      elim (eqb_cases t token) [
        | inl (p, q) ↦ let w : n ≡ k = ground arith in (inl w, rw (← w) (r.token_of ∙ sym p))
        | inr (p, q) ↦ let (i, w) = h.token t k (ground arith) in (inr i, (same k i).1.token ∙ w)
      ]

  unlocked :
      (x : Bytes) (k : ℕ) → f.by_name x ≡ some k → ((f.nodes k).token ≡ []) ⊎ In k (n ∷ locks)
  unlocked x k e = elim (ℕ_discrete k n) [
    | yes p ↦ inr (inl (sym p))
    | no ne ↦ elim (g.origin x k (rw r.by_name at e)) [
      | inr (le, lt) ↦ inl (rw (r.other k ne) (g.blank k le lt).0)
      | inl old ↦ elim (h.unlocked x k old) [
        | inr i ↦ inr (inr i)
        | inl t ↦
            inl (rw (r.other k ne) ((g.kept k (h.counted.present x k old).allocated).token ∙ t))
      ]
    ]
  ]

  idle :
      (x : Bytes) (k : ℕ)
      → f.by_name x ≡ some k
      → (f.nodes k).token ≡ []
      → ((f.nodes k).queued ≡ false) × ((f.nodes k).held ≡ false)
  idle x k e t = elim (ℕ_discrete k n) [
    | yes p ↦ absurd (nonempty (sym r.token_of ∙ (rw p at t)))
    | no ne ↦ elim (g.origin x k (rw r.by_name at e)) [
      | inr (le, lt) ↦ rw (r.other k ne) (let b = g.blank k le lt in (b.1, b.2))
      | inl old ↦
          let s = g.kept k (h.counted.present x k old).allocated in
          rw (r.other k ne)
            (ground (arith, h.idle x k old, s, ap (λ (z : Node). z.token) (r.other k ne)))
    ]
  ]

  queue : Distinct f.by_expiry
  queue =
      rw (r.by_expiry, g.by_expiry)
        (elim (Bool-cases (nonneg d.duration)) [
          | inl e ↦ rw e (λ i. (same n (h.in_queue n i).0).0 refl, h.queue)
          | inr e ↦ rw e h.queue
        ])

  in_queue : (k : ℕ) → In k f.by_expiry → In k (n ∷ locks) × ((f.nodes k).queued ≡ true)
  in_queue k i = elim (Bool-cases (nonneg d.duration)) [
    | inl e ↦ first e (rw (r.by_expiry, g.by_expiry, e) at i)
    | inr e ↦ old (rw (r.by_expiry, g.by_expiry, e) at i)
  ]
    where
      old : In k m.by_expiry → In k (n ∷ locks) × ((f.nodes k).queued ≡ true)
      old j = let (l, q) = h.in_queue k j in (inr l, (same k l).1.queued ∙ q)

      first :
          nonneg d.duration ≡ true
          → In k (n ∷ m.by_expiry)
          → In k (n ∷ locks) × ((f.nodes k).queued ≡ true)
      first e (inl p) = (inl p, rw (← p, r.queued, e) refl)
      first e (inr j) = old j

  queued : (k : ℕ) → In k (n ∷ locks) → (f.nodes k).queued ≡ true → In k f.by_expiry
  queued k (inl p) q =
      let e : nonneg d.duration ≡ true = ground (arith, r.queued, vacant.1, (rw (← p) at q)) in
      rw (r.by_expiry, g.by_expiry, e) (inl p)
  queued k (inr i) q =
      let j = h.queued k i (sym (same k i).1.queued ∙ q) in
      rw (r.by_expiry, g.by_expiry)
        (elim (Bool-cases (nonneg d.duration)) [ inl e ↦ rw e (inr j) | inr e ↦ rw e j ])

  exclusive :
      (a b : ℕ)
      → In a (n ∷ locks)
      → In b (n ∷ locks)
      → a ≢ b
      → overlaps (f.nodes a).details (f.nodes b).details ≡ false
  exclusive a b (inl p) (inl q) ne = absurd (ne (sym p ∙ q))
  exclusive a b (inl p) (inr j) ne = rw (← p, r.details, (same b j).1.details) (apart b j)
  exclusive a b (inr i) (inl q) ne =
      rw (← q, r.details, (same a i).1.details) (overlaps_comm d (m.nodes a).details (apart a i))
  exclusive a b (inr i) (inr j) ne =
      rw ((same a i).1.details, (same b j).1.details) (h.exclusive a b i j ne)

  pub Granted-IsConsistent : IsConsistent f (n ∷ locks)
  Granted-IsConsistent = record {
    counted = counted;
    distinct = (λ i. (same n i).0 refl, h.distinct);
    lock = lock;
    token = token_lock;
    unlocked = unlocked;
    idle = idle;
    queue = queue;
    in_queue = in_queue;
    queued = queued;
    exclusive = exclusive;
  }

  -- No Confirm holds the new lock.
  pub new_free : (f.nodes n).held ≡ false
  new_free = r.held ∙ vacant.2
