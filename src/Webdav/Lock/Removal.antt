-- ===== src/Webdav/Lock/Removal.antt =====
-- `remove` ends one lock: what it changes.
pub mod Keeps
use native.Mathlib.Decide.{ℕ_discrete}
use cloudreve.Prelude.{
  ℕ, zero, suc, ◌+◌, ◌-◌, ◌<◌, ◌≤◌, ◌≡◌, ◌≢◌, refl, ap, sym, ◌∙◌, Bool, true, false, not, ◌&&◌,
  Option, none, some, List, [], ◌∷◌, ◌⊎◌, inl, inr, Bytes, eqb, eqb→≡, eqb_refl, eqb_cases, ◌==◌,
  ==→≡, if◌then◌else◌, length, arith, nonneg, Option-cases, Bool-cases, ◌>>=◌,
}
use cloudreve.Webdav.Path.{walk_to_root}
use cloudreve.Webdav.Path.Walk.{IsRooted, chain, visit, walk-chain, chain_cons}
use cloudreve.Webdav.Lock.State.{
  LockDetails, Node, MemLs, update, set_node, assign, drop_ref, remove, pull, erase,
}
use cloudreve.Webdav.Lock.Counts.{occurrences, Points, IsCounted, IsCounted-cong, SameLock}
use cloudreve.Webdav.Lock.Drops.{Shrinks, visit-drop_ref, named_of_count}
use cloudreve.Webdav.Lock.Members.{
  In, Distinct, In-erase, In-erase_ne, not-In-erase, Distinct-erase,
}
use cloudreve.Webdav.Lock.Consistent.{overlaps, refs, IsLock, IsConsistent}
use cloudreve.Webdav.Lock.Refs.{refs-erase, refs-cong, refs-pos}

-- The state that the walk of `remove` starts from.
abbrev pub cleared : ℕ → MemLs → MemLs
cleared n m = record m {
  by_token = assign m.by_token (m.nodes n).token none;
  nodes = update m.nodes n (record (m.nodes n) { token = [] });
}

cleared-IsCounted : (m : MemLs) (n : ℕ) (c : Bytes → ℕ) → IsCounted m c → IsCounted (cleared n m) c
cleared-IsCounted m n c h = record {
  absent = h.absent;
  present = λ x k e. ground (arith, h.present x k);
}

-- The walk of `remove`, and what it leaves.
abbrev pub after_walk : ℕ → MemLs → MemLs
after_walk n m = if (m.nodes n).queued then pull n m else m

pub remove_walk :
    (m : MemLs) (locks : List ℕ) (n : ℕ)
    → IsConsistent m locks
    → In n locks
    → (m' : MemLs) × (remove n m ≡ some (after_walk n m'))
      × IsCounted m' (refs m.nodes (erase n locks))
      × Shrinks (cleared n m) m'
unfolding remove
remove_walk m locks n h i =
    let root = (m.nodes n).details.root in
    let (m', v, c, s) =
      visit-drop_ref (chain root) true (cleared n m) (refs m.nodes locks)
        (cleared-IsCounted m n (refs m.nodes locks) h.counted)
        (λ x. omega (arith, refs-erase m.nodes n locks x i)) in
    (
      m',
      rw (walk-chain drop_ref root true (cleared n m) (h.lock n i).rooted, v) refl,
      IsCounted-cong (λ x. omega (arith, refs-erase m.nodes n locks x i)) c,
      s,
    )

pub after_walk-IsCounted :
    (m : MemLs) (n : ℕ) {c : Bytes → ℕ} → IsCounted m c → IsCounted (after_walk n m) c
unfolding pull
after_walk-IsCounted m n h = elim (Bool-cases (m.nodes n).queued) [
  | inl e ↦ rw e (record { absent = h.absent; present = λ x k e'. ground (arith, h.present x k) })
  | inr e ↦ rw e h
]

-- What a removal changes.
pub record Removed (n : ℕ) (m f : MemLs) : Type 0 where
  pub by_token : f.by_token ≡ assign m.by_token (m.nodes n).token none
  pub gen : f.gen ≡ m.gen
  pub other : (k : ℕ) → k ≢ n → SameLock (f.nodes k) (m.nodes k)
  pub details : (f.nodes n).details ≡ (m.nodes n).details
  pub token : (f.nodes n).token ≡ []
  pub queued : (f.nodes n).queued ≡ false
  pub held : (f.nodes n).held ≡ (m.nodes n).held
  pub named : (x : Bytes) (k : ℕ) → f.by_name x ≡ some k → m.by_name x ≡ some k
  pub waiting : (k : ℕ) → In k f.by_expiry → In k m.by_expiry × (k ≢ n)
  pub still_waiting : (k : ℕ) → In k m.by_expiry → k ≢ n → In k f.by_expiry
  pub distinct : Distinct f.by_expiry
  pub pulled : (m.nodes n).queued ≡ true → f.by_expiry ≡ erase n m.by_expiry

pub after_walk-Removed :
    (m m' : MemLs) (locks : List ℕ) (n : ℕ)
    → IsConsistent m locks
    → Shrinks (cleared n m) m'
    → Removed n m (after_walk n m')
unfolding pull
after_walk-Removed m m' locks n h s = elim (Bool-cases (m'.nodes n).queued) [
  | inl e ↦ rw e (record {
    by_token = s.by_token;
    gen = s.gen;
    other = λ k ne. ground (arith, s.kept k);
    details = ground (arith, s.kept n);
    token = ground (arith, s.kept n);
    queued = ground (arith, s.kept n);
    held = ground (arith, s.kept n);
    named = λ x k e'. s.named x k e';
    waiting = λ k i.
        let i' : In k (erase n m.by_expiry) = rw s.by_expiry at i in
        (In-erase k n m.by_expiry i', λ p. not-In-erase n m.by_expiry h.queue (rw p at i'));
    still_waiting = λ k i ne. rw s.by_expiry (In-erase_ne k n m.by_expiry i ne);
    distinct = rw s.by_expiry (Distinct-erase n m.by_expiry h.queue);
    pulled = λ q. rw s.by_expiry refl;
  })
  | inr e ↦ rw e (record {
    by_token = s.by_token;
    gen = s.gen;
    other = λ k ne. ground (arith, s.kept k);
    details = ground (arith, s.kept n);
    token = ground (arith, s.kept n);
    queued = e;
    held = ground (arith, s.kept n);
    named = λ x k e'. s.named x k e';
    waiting = λ k i.
        (rw s.by_expiry at i, λ p. ground (arith, s.kept k, h.in_queue k (rw s.by_expiry at i)));
    still_waiting = λ k i ne. rw s.by_expiry i;
    distinct = rw s.by_expiry h.queue;
    pulled = λ q. absurd (ground (arith, s.kept n));
  })
]
