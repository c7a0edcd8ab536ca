-- ===== src/Webdav/Lock/Creation.antt =====
-- What `create` and the end of Create do to a consistent system.
pub mod Keeps
use cloudreve.Prelude.{
  ℕ, zero, suc, ◌+◌, ◌<◌, ◌≤◌, ◌≡◌, ◌≢◌, refl, sym, ◌∙◌, ap, Bool, true, false, not, ◌&&◌, ◌||◌,
  Option, none, some, List, [], ◌∷◌, ◌⊎◌, inl, inr, Bytes, eqb, eqb→≡, eqb_refl, eqb_cases, length,
  arith, nonneg, Option-cases, Bool-cases, ◌>>=◌, if◌then◌else◌,
}
use cloudreve.Webdav.Path.{walk_to_root}
use cloudreve.Webdav.Path.Walk.{IsRooted, chain, visit, walk-chain, chain_cons}
use cloudreve.Webdav.Lock.State.{LockDetails, Node, MemLs, assign, push}
use cloudreve.Webdav.Lock.Create.{node_for, add_ref, create}
use cloudreve.Webdav.Lock.Methods.{grant}
use cloudreve.Webdav.Lock.Counts.{
  occurrences, IsCounted, IsCounted-cong, Points, Grows, Grows-trans, bump, bump_named,
  bump-IsCounted, bump-Grows, visit-add_ref,
}
use cloudreve.Webdav.Lock.Members.{In, Distinct}
use cloudreve.Webdav.Lock.Consistent.{above, overlaps, refs, IsLock, IsConsistent}

pub create_lem :
    (name : Bytes) (m : MemLs) (c : Bytes → ℕ)
    → IsCounted m c
    → IsRooted name
    → (n : ℕ) × (m' : MemLs) × (create name m ≡ some (n, m'))
      × IsCounted m' (λ x. occurrences x (chain name) + c x)
      × Grows m m'
      × (m'.by_name name ≡ some n)
unfolding create visit occurrences
create_lem name m c h r =
    let (rest, e) = chain_cons name r in
    let n = (node_for name m).0 in
    let (ret, m', v, h', g, same) =
      visit-add_ref rest false (some n) (bump name m) (λ x. (if eqb x name then 1 else 0) + c x)
        (bump-IsCounted name m c h) in
    (
      n,
      m',
      rw (walk-chain add_ref name true (none, m) r, e, v, same refl) refl,
      rw e (IsCounted-cong (λ x. omega arith) h'),
      Grows-trans (bump-Grows name m c h) g,
      g.named name n (bump_named name m),
    )

-- The state after the new lock is written into its node.
pub record Granted (d : LockDetails) (n : ℕ) (token : Bytes) (m f : MemLs) : Type 0 where
  pub by_name : f.by_name ≡ m.by_name
  pub by_token : f.by_token ≡ assign m.by_token token (some n)
  pub fresh : f.fresh ≡ m.fresh
  pub other : (k : ℕ) → k ≢ n → f.nodes k ≡ m.nodes k
  pub details : (f.nodes n).details ≡ d
  pub token_of : (f.nodes n).token ≡ token
  pub count : (f.nodes n).ref_count ≡ (m.nodes n).ref_count
  pub held : (f.nodes n).held ≡ (m.nodes n).held
  pub queued : (f.nodes n).queued ≡ (nonneg d.duration || (m.nodes n).queued)
  pub by_expiry : f.by_expiry ≡ (if nonneg d.duration then n ∷ m.by_expiry else m.by_expiry)

pub grant-Granted :
    (now : ℕ) (d : LockDetails) (n : ℕ) (token : Bytes) (m : MemLs) (g : ℕ)
    → Granted d n token m (grant now d n token (record m { gen = g }))
unfolding grant push
grant-Granted now d n token m g = elim (Bool-cases (nonneg d.duration)) [
  | inl e ↦ record {
    by_name = ground arith;
    by_token = ground arith;
    fresh = ground arith;
    other = λ k ne. ground arith;
    details = ground arith;
    token_of = ground arith;
    count = ground arith;
    held = ground arith;
    queued = ground arith;
    by_expiry = ground arith;
  }
  | inr e ↦ record {
    by_name = ground arith;
    by_token = ground arith;
    fresh = ground arith;
    other = λ k ne. ground arith;
    details = ground arith;
    token_of = ground arith;
    count = ground arith;
    held = ground arith;
    queued = ground arith;
    by_expiry = ground arith;
  }
]

pub gen-grant :
    (now : ℕ) (d : LockDetails) (n : ℕ) (token : Bytes) (m : MemLs)
    → (grant now d n token m).gen ≡ m.gen
unfolding grant push
gen-grant now d n token m = ground arith
