-- ===== src/Webdav/Lock/Counts.antt =====
-- The reference counts of memLS under the walk of `create`.
use mathlib.Core.Path.{fun_ext}
use cloudreve.Prelude.{
  ℕ, ◌+◌, ◌<◌, ◌≤◌, ◌≡◌, refl, ◌∙◌, Bool, true, false, Option, none, some, List, [], ◌∷◌, ◌⊎◌, inl,
  inr, Bytes, eqb, eqb→≡, eqb_refl, eqb_cases, if◌then◌else◌, arith, pos, Option-cases,
}
use cloudreve.Webdav.Path.Walk.{visit}
use cloudreve.Webdav.Lock.State.{Node, MemLs}
use cloudreve.Webdav.Lock.Create.{node_for, count_up, add_ref}

-- How often a name stands in a list.
unfoldable pub occurrences : Bytes → List Bytes → ℕ
occurrences x [] = 0
occurrences x (y ∷ ys) = (if eqb x y then 1 else 0) + occurrences x ys

-- The node of a name carries the name and a positive count.
pub record Points (m : MemLs) (x : Bytes) (n k : ℕ) : Type 0 where
  pub allocated : n < m.fresh
  pub root : (m.nodes n).details.root ≡ x
  pub count : (m.nodes n).ref_count ≡ pos k
  pub positive : 0 < k

-- The nodes of the map are counted by `c`, and a name that is not in it has the count 0.
pub record IsCounted (m : MemLs) (c : Bytes → ℕ) : Type 0 where
  pub absent : (x : Bytes) → m.by_name x ≡ none → c x ≡ 0
  pub present : (x : Bytes) (n : ℕ) → m.by_name x ≡ some n → Points m x n (c x)

abbrev pub bump : Bytes → MemLs → MemLs
bump name m = let (n, m') = node_for name m in count_up n m'

bump-present :
    (name : Bytes) (m : MemLs) (c : Bytes → ℕ)
    → IsCounted m c
    → (x : Bytes) (n : ℕ) → (bump name m).by_name x ≡ some n
    → Points (bump name m) x n ((if eqb x name then 1 else 0) + c x)
unfolding node_for
bump-present name m c h x n e = elim (eqb_cases x name) [
  | inl (p, q) ↦ elim (Option-cases (m.by_name name)) [
    | inl e' ↦ rw p (ground (arith, h.absent name))
    | inr (k, e') ↦ ground (arith, h.present name k)
  ]
  | inr (p, q) ↦ elim (Option-cases (m.by_name name)) [
    | inl e' ↦ ground (arith, h.present x n)
    | inr (k, e') ↦ ground (arith, h.present name k, h.present x n)
  ]
]

pub bump-IsCounted :
    (name : Bytes) (m : MemLs) (c : Bytes → ℕ)
    → IsCounted m c
    → IsCounted (bump name m) (λ x. (if eqb x name then 1 else 0) + c x)
unfolding node_for
bump-IsCounted name m c h = record {
  absent = λ x e. elim (eqb_cases x name) [
    | inl (p, q) ↦ absurd (ground (arith, p, q, e))
    | inr (p, q) ↦ elim (Option-cases (m.by_name name)) [
      | inl e' ↦ ground (arith, h.absent x)
      | inr (k, e') ↦ ground (arith, h.absent x)
    ]
  ];
  present = bump-present name m c h;
}

-- All that a node holds but its reference count.
pub record SameLock (a b : Node) : Type 0 where
  pub details : a.details ≡ b.details
  pub token : a.token ≡ b.token
  pub expiry : a.expiry ≡ b.expiry
  pub queued : a.queued ≡ b.queued
  pub held : a.held ≡ b.held

-- What the walk of `create` leaves alone. A node that it makes is blank but for its name.
pub record Grows (m m' : MemLs) : Type 0 where
  pub by_token : m'.by_token ≡ m.by_token
  pub by_expiry : m'.by_expiry ≡ m.by_expiry
  pub gen : m'.gen ≡ m.gen
  pub fresh : m.fresh ≤ m'.fresh
  pub kept : (n : ℕ) → n < m.fresh → SameLock (m'.nodes n) (m.nodes n)
  pub blank :
      (n : ℕ)
      → m.fresh ≤ n
      → n < m'.fresh
      → ((m'.nodes n).token ≡ []) × ((m'.nodes n).queued ≡ false) × ((m'.nodes n).held ≡ false)
  pub named : (x : Bytes) (n : ℕ) → m.by_name x ≡ some n → m'.by_name x ≡ some n
  pub origin :
      (x : Bytes) (n : ℕ)
      → m'.by_name x ≡ some n
      → (m.by_name x ≡ some n) ⊎ ((m.fresh ≤ n) × (n < m'.fresh))

Grows-refl : (m : MemLs) → Grows m m
Grows-refl m = record {
  by_token = refl;
  by_expiry = refl;
  gen = refl;
  fresh = omega arith;
  kept = λ n h. ground arith;
  blank = λ n h k. absurd (omega arith);
  named = λ x n e. e;
  origin = λ x n e. inl e;
}

pub Grows-trans : {a b c : MemLs} → Grows a b → Grows b c → Grows a c
Grows-trans {a} {b} {c} g h = record {
  by_token = h.by_token ∙ g.by_token;
  by_expiry = h.by_expiry ∙ g.by_expiry;
  gen = h.gen ∙ g.gen;
  fresh = omega arith;
  kept = λ n lt. ground (arith, g.kept n, h.kept n);
  blank = λ n le lt. ground (arith, g.blank n le, h.kept n, h.blank n);
  named = λ x n e. h.named x n (g.named x n e);
  origin = λ x n e. ground (arith, h.origin x n e, g.origin x n);
}

pub bump-Grows : (name : Bytes) (m : MemLs) (c : Bytes → ℕ) → IsCounted m c → Grows m (bump name m)
unfolding node_for
bump-Grows name m c h = elim (Option-cases (m.by_name name)) [
  | inl e ↦ record {
    by_token = ground arith;
    by_expiry = ground arith;
    gen = ground arith;
    fresh = ground arith;
    kept = λ n lt. ground (arith, e);
    blank = λ n le lt. ground (arith, e);
    named = λ x n e'. ground (arith, e, eqb→≡ x name);
    origin = λ x n e'. ground (arith, e);
  }
  | inr (k, e) ↦ record {
    by_token = ground arith;
    by_expiry = ground arith;
    gen = ground arith;
    fresh = ground arith;
    kept = λ n lt. ground (arith, e);
    blank = λ n le lt. ground (arith, e, h.present name k e);
    named = λ x n e'. ground (arith, e);
    origin = λ x n e'. ground (arith, e);
  }
]

pub bump_named : (name : Bytes) (m : MemLs) → (bump name m).by_name name ≡ some (node_for name m).0
unfolding node_for
bump_named name m = ground (arith, eqb_refl name)

pub IsCounted-cong :
    {m : MemLs} {c d : Bytes → ℕ} → ((x : Bytes) → d x ≡ c x) → IsCounted m c → IsCounted m d
IsCounted-cong {m} eq h = rw (fun_ext eq) h

-- The walk of `create` over a list of names counts each of them once more.
pub visit-add_ref :
    (names : List Bytes) (first : Bool) (ret : Option ℕ) (m : MemLs) (c : Bytes → ℕ)
    → IsCounted m c
    → (ret' : Option ℕ) × (m' : MemLs) × (visit add_ref names first (ret, m)
        ≡ some (true, (ret', m')))
      × IsCounted m' (λ x. occurrences x names + c x)
      × Grows m m'
      × (first ≡ false → ret' ≡ ret)
unfolding visit add_ref occurrences
visit-add_ref [] first ret m c h =
    (ret, m, refl, IsCounted-cong (λ x. omega arith) h, Grows-refl m, λ _. refl)
visit-add_ref (name ∷ names) first ret m c h =
    let (ret', m', e, h', g, k) =
      visit-add_ref names false (if first then some (node_for name m).0 else ret) (bump name m)
        (λ x. (if eqb x name then 1 else 0) + c x) (bump-IsCounted name m c h) in
    (
      ret',
      m',
      e,
      IsCounted-cong (λ x. omega arith) h',
      Grows-trans (bump-Grows name m c h) g,
      λ f. ground (arith, k refl),
    )
