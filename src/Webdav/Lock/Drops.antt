-- ===== src/Webdav/Lock/Drops.antt =====
-- The reference counts of memLS under the walk of `remove`.
use cloudreve.Prelude.{
  ℕ, zero, suc, ◌-◌, ◌<◌, ◌≤◌, ◌≡◌, ◌≢◌, refl, ◌∙◌, Bool, true, false, none, some, List, [], ◌∷◌,
  inl, inr, Bytes, eqb, eqb→≡, eqb_refl, eqb_cases, if◌then◌else◌, arith, pos, Option-cases,
}
use cloudreve.Webdav.Path.Walk.{visit}
use cloudreve.Webdav.Lock.State.{MemLs, set_node, assign, drop_ref}
use cloudreve.Webdav.Lock.Counts.{occurrences, Points, IsCounted, IsCounted-cong, SameLock}

-- What the walk of `remove` leaves alone.
pub record Shrinks (m m' : MemLs) : Type 0 where
  pub by_token : m'.by_token ≡ m.by_token
  pub by_expiry : m'.by_expiry ≡ m.by_expiry
  pub gen : m'.gen ≡ m.gen
  pub fresh : m'.fresh ≡ m.fresh
  pub kept : (n : ℕ) → SameLock (m'.nodes n) (m.nodes n)
  pub named : (x : Bytes) (n : ℕ) → m'.by_name x ≡ some n → m.by_name x ≡ some n

Shrinks-refl : (m : MemLs) → Shrinks m m
Shrinks-refl m = record {
  by_token = refl;
  by_expiry = refl;
  gen = refl;
  fresh = refl;
  kept = λ n. ground arith;
  named = λ x n e. e;
}

Shrinks-trans : {a b c : MemLs} → Shrinks a b → Shrinks b c → Shrinks a c
Shrinks-trans {a} {b} {c} g h = record {
  by_token = h.by_token ∙ g.by_token;
  by_expiry = h.by_expiry ∙ g.by_expiry;
  gen = h.gen ∙ g.gen;
  fresh = h.fresh ∙ g.fresh;
  kept = λ n. ground (arith, g.kept n, h.kept n);
  named = λ x n e. g.named x n (h.named x n e);
}

-- One round of the walk of `remove`, at the node of a name: the count falls, and a name with no
-- count left is dropped.
dropped : Bytes → ℕ → ℕ → MemLs → MemLs
dropped name k zero m = record (set_node m k (record (m.nodes k) { ref_count = pos 0 })) {
  by_name = assign m.by_name name none;
}
dropped name k (suc d) m = set_node m k (record (m.nodes k) { ref_count = pos (suc d) })

module _ {m : MemLs} {c : Bytes → ℕ} (h : IsCounted m c) (name : Bytes) (k d : ℕ)
    (e : m.by_name name ≡ some k) (r : c name ≡ suc d) where
  drop_ref-dropped : (first : Bool) → drop_ref name first m ≡ some (true, dropped name k d m)
  unfolding drop_ref dropped
  drop_ref-dropped first = ground (arith, h.present name k e)

  dropped-Shrinks : Shrinks m (dropped name k d m)
  unfolding dropped
  dropped-Shrinks = go d
    where
      go : (d : ℕ) → Shrinks m (dropped name k d m)
      go zero = record {
        by_token = refl;
        by_expiry = refl;
        gen = refl;
        fresh = refl;
        kept = λ n. ground arith;
        named = λ x n e'. ground arith;
      }
      go (suc d) = record {
        by_token = refl;
        by_expiry = refl;
        gen = refl;
        fresh = refl;
        kept = λ n. ground arith;
        named = λ x n e'. e';
      }

  dropped-present :
      (x : Bytes) (n : ℕ)
      → (dropped name k d m).by_name x ≡ some n
      → Points (dropped name k d m) x n (c x - (if eqb x name then 1 else 0))
  unfolding dropped
  dropped-present x n e' = elim (eqb_cases x name) [
    | inl (p, q) ↦ go p q d r e'
    | inr (p, q) ↦ stay p q d e'
  ]
    where
      go :
          x ≡ name
          → eqb x name ≡ true
          → (d : ℕ) → c name ≡ suc d
          → (dropped name k d m).by_name x ≡ some n
          → Points (dropped name k d m) x n (c x - (if eqb x name then 1 else 0))
      go p q zero r e' = ground (arith, h.present name k e)
      go p q (suc d) r e' = ground (arith, h.present name k e)

      stay :
          x ≢ name
          → eqb x name ≡ false
          → (d : ℕ) → (dropped name k d m).by_name x ≡ some n
          → Points (dropped name k d m) x n (c x - (if eqb x name then 1 else 0))
      stay p q zero e' = ground (arith, h.present name k e, h.present x n)
      stay p q (suc d) e' = ground (arith, h.present name k e, h.present x n)

  none_left :
      (x : Bytes) (d : ℕ)
      → c name ≡ suc d
      → (dropped name k d m).by_name x ≡ none
      → c x - (if eqb x name then 1 else 0) ≡ 0
  unfolding dropped
  none_left x zero r e' = ground (arith, eqb→≡ x name, h.absent x)
  none_left x (suc d) r e' = ground (arith, eqb→≡ x name, h.absent x)

  dropped-IsCounted : IsCounted (dropped name k d m) (λ x. c x - (if eqb x name then 1 else 0))
  unfolding dropped
  dropped-IsCounted = record { absent = λ x e'. none_left x d r e'; present = dropped-present }

pub named_of_count :
    {m : MemLs} {c : Bytes → ℕ}
    → IsCounted m c
    → (x : Bytes) → 0 < c x
    → (n : ℕ) × (m.by_name x ≡ some n)
named_of_count {m} h x lt = elim (Option-cases (m.by_name x)) [
  | inl e ↦ absurd (ground (arith, h.absent x e))
  | inr (n, e) ↦ (n, e)
]

-- The walk of `remove` over names that are counted often enough never meets a missing node, and
-- counts each of them once less.
pub visit-drop_ref :
    (names : List Bytes) (first : Bool) (m : MemLs) (c : Bytes → ℕ)
    → IsCounted m c
    → ((x : Bytes) → occurrences x names ≤ c x)
    → (m' : MemLs) × (visit drop_ref names first m ≡ some (true, m'))
      × IsCounted m' (λ x. c x - occurrences x names)
      × Shrinks m m'
unfolding visit occurrences
visit-drop_ref [] first m c h enough =
    (m, refl, IsCounted-cong (λ x. omega arith) h, Shrinks-refl m)
visit-drop_ref (name ∷ names) first m c h enough =
    let lt : 0 < c name = ground (arith, enough name, eqb_refl name) in
    let (k, e) = named_of_count h name lt in
    let d : ℕ = c name - 1 in
    let r : c name ≡ suc d = omega arith in
    let (m', v, h', s) =
      visit-drop_ref names false (dropped name k d m) (λ x. c x - (if eqb x name then 1 else 0))
        (dropped-IsCounted h name k d e r) (λ x. ground (arith, enough x)) in
    (
      m',
      rw (drop_ref-dropped h name k d e r first) v,
      IsCounted-cong (λ x. omega arith) h',
      Shrinks-trans (dropped-Shrinks h name k d e r) s,
    )
