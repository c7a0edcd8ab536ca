-- ===== src/Webdav/Lock/Conflicts.antt =====
-- canCreate refuses a name exactly if a lock overlaps with it.

use cloudreve.Prelude.{
  ℕ, ◌<◌, ◌≡◌, ◌≢◌, refl, sym, Bool, true, false, some, List, [], ◌∷◌, ◌⊎◌, inl, inr, Bytes, eqb,
  ≢→eqb, eqb_refl, eqb_cases, ltb, ltb→lt, ltb→le, arith, Option-cases, Bool-cases,
}
use cloudreve.Webdav.Path.Walk.{IsRooted, chain, visit, walk-chain, chain_cons}
use cloudreve.Webdav.Lock.State.{LockDetails, Node, MemLs}
use cloudreve.Webdav.Lock.Create.{may_lock, can_create}
use cloudreve.Webdav.Lock.Counts.{occurrences}
use cloudreve.Webdav.Lock.Members.{In}
use cloudreve.Webdav.Lock.Refs.{refs-erase}
use cloudreve.Webdav.Lock.Consistent.{overlaps, refs, IsConsistent}

-- The node of a name blocks every name below it.
pub record Blocks (m : MemLs) (y : Bytes) (n : ℕ) : Type 0 where
  pub named : m.by_name y ≡ some n
  pub token : (m.nodes n).token ≢ []
  pub deep : (m.nodes n).details.zero_depth ≡ false

Blocks-cases :
    (m : MemLs) (y : Bytes) (zd : Bool)
    → ((may_lock zd y false m ≡ some (true, m)) × ((n : ℕ) → ¬ Blocks m y n))
      ⊎ ((may_lock zd y false m ≡ some (false, m)) × ((n : ℕ) × Blocks m y n))
unfolding may_lock
Blocks-cases m y zd = elim (Option-cases (m.by_name y)) [
  | inl e ↦ inl (rw (e, may_lock) refl, λ n b. ground (arith, b.named))
  | inr (n, e) ↦ elim (eqb_cases (m.nodes n).token []) [
    | inl (p, q) ↦ inl (rw (e, may_lock, q) refl, λ k b. ground (arith, b.named, b.token))
    | inr (p, q) ↦ elim (Bool-cases (m.nodes n).details.zero_depth) [
      | inl z ↦ inl (rw (e, may_lock, q, z) refl, λ k b. ground (arith, b.named, b.deep))
      | inr z ↦ inr (rw (e, may_lock, q, z) refl, (n, record { named = e; token = p; deep = z }))
    ]
  ]
]

-- The walk of canCreate above the name itself stops at the first node that blocks.
visit-may_lock :
    (m : MemLs) (zd : Bool) (names : List Bytes)
    → ((visit (may_lock zd) names false m ≡ some (true, m))
        × ((y : Bytes) (n : ℕ) → 0 < occurrences y names → ¬ Blocks m y n))
      ⊎ ((visit (may_lock zd) names false m ≡ some (false, m))
          × ((y : Bytes) × (n : ℕ) × (0 < occurrences y names) × Blocks m y n))
unfolding visit occurrences
visit-may_lock m zd [] = inl (refl, λ y n lt. absurd (omega arith))
visit-may_lock m zd (name ∷ names) = elim (Blocks-cases m name zd) [
  | inr (e, (n, b)) ↦ inr (rw e refl, (name, n, rw (eqb_refl name) (omega arith), b))
  | inl (e, free) ↦ elim (visit-may_lock m zd names) [
    | inl (e', none_above) ↦ inl (
      rw e e',
      λ y n lt b. elim (eqb_cases y name) [
        | inl (p, q) ↦ free n (rw p at b)
        | inr (p, q) ↦ none_above y n (ground arith) b
      ],
    )
    | inr (e', (y, n, lt, b)) ↦ inr (rw e e', (y, n, omega arith, b))
  ]
]

lock_of_refs :
    (nodes : ℕ → Node) (locks : List ℕ) (x : Bytes)
    → 0 < refs nodes locks x
    → (k : ℕ) × In k locks × (0 < occurrences x (chain (nodes k).details.root))
unfolding refs
lock_of_refs nodes [] x lt = absurd (omega arith)
lock_of_refs nodes (n ∷ ns) x lt =
    elim (Bool-cases (ltb 0 (occurrences x (chain (nodes n).details.root)))) [
      | inl e ↦ (n, inl refl, ltb→lt 0 _ e)
      | inr e ↦
          let (k, i, p) = lock_of_refs nodes ns x (omega (arith, ltb→le 0 _ e)) in (k, inr i, p)
    ]

module _ {m : MemLs} {locks : List ℕ} (h : IsConsistent m locks) (d : LockDetails) where
  -- The test of canCreate at the name itself.
  NameFree : Type 0
  NameFree =
      ((k : ℕ) → In k locks → (m.nodes k).details.root ≢ d.root)
      × (d.zero_depth ≡ false → refs m.nodes locks d.root ≡ 0)

  Conflict : Type 0
  Conflict = (k : ℕ) × In k locks × (overlaps d (m.nodes k).details ≡ true)

  same_name : (n : ℕ) → (m.nodes n).details.root ≡ d.root → overlaps d (m.nodes n).details ≡ true
  unfolding overlaps
  same_name n p =
      let q : eqb d.root (m.nodes n).details.root ≡ true = rw p (eqb_refl d.root) in rw q refl

  below_name :
      (k : ℕ)
      → d.zero_depth ≡ false
      → 0 < occurrences d.root (chain (m.nodes k).details.root)
      → overlaps d (m.nodes k).details ≡ true
  unfolding overlaps
  below_name k z lt = ground arith

  name_cases :
      ((may_lock d.zero_depth d.root true m ≡ some (true, m)) × NameFree)
      ⊎ ((may_lock d.zero_depth d.root true m ≡ some (false, m)) × Conflict)
  unfolding may_lock NameFree Conflict overlaps
  name_cases = elim (Option-cases (m.by_name d.root)) [
    | inl e ↦ inl (
      rw (e, may_lock) refl,
      (λ k i p. ground (arith, (h.lock k i).by_name), λ z. h.counted.absent d.root e),
    )
    | inr (n, e) ↦ elim (eqb_cases (m.nodes n).token []) [
      | inr (p, q) ↦ elim (h.unlocked d.root n e) [
        | inl t ↦ absurd (p t)
        | inr i ↦
            inr (rw (e, may_lock, q) refl, (n, i, same_name n (h.counted.present d.root n e).root))
      ]
      | inl (p, q) ↦ elim (Bool-cases d.zero_depth) [
        | inl z ↦ inl (
          rw (e, may_lock, q, z) refl,
          (
            λ k i r. ground (arith, (h.lock k i).by_name, (h.lock k i).has_token),
            λ z'. absurd (ground arith),
          ),
        )
        | inr z ↦
            let (k, i, lt) =
              lock_of_refs m.nodes locks d.root (h.counted.present d.root n e).positive in
            inr (rw (e, may_lock, q, z) refl, (k, i, below_name k z lt))
      ]
    ]
  ]

  above_cases :
      (rest : List Bytes)
      → chain d.root ≡ d.root ∷ rest
      → NameFree
      → ((y : Bytes) (n : ℕ) → 0 < occurrences y rest → ¬ Blocks m y n)
      → (k : ℕ) → In k locks
      → overlaps d (m.nodes k).details ≡ false
  unfolding NameFree overlaps occurrences
  above_cases rest e free none_above k i =
      let lock = h.lock k i in
      let root = (m.nodes k).details.root in
      let apart : eqb d.root root ≡ false = ≢→eqb d.root root (λ p. free.0 k i (sym p)) in
      let apart' : eqb root d.root ≡ false = ≢→eqb root d.root (free.0 k i) in
      let below : d.zero_depth ≡ false → occurrences d.root (chain root) ≡ 0 =
        λ z. omega (arith, free.1 z, refs-erase m.nodes k locks d.root i) in
      let over : (m.nodes k).details.zero_depth ≡ false
          → ltb 0 (occurrences root (chain d.root)) ≡ false =
        λ z.
          rw (e, apart')
            (elim (Bool-cases (ltb 0 (occurrences root rest))) [
              | inl p ↦ absurd (
                  none_above root k (ltb→lt 0 _ p)
                    (record { named = lock.by_name; token = lock.has_token; deep = z }))
              | inr p ↦ ground arith
            ]) in
      ground (arith, below, over)

  blocked_conflict :
      (rest : List Bytes)
      → chain d.root ≡ d.root ∷ rest
      → (y : Bytes) (n : ℕ) → 0 < occurrences y rest
      → Blocks m y n
      → Conflict
  unfolding Conflict overlaps occurrences
  blocked_conflict rest e y n lt b = elim (h.unlocked y n b.named) [
    | inl t ↦ absurd (b.token t)
    | inr i ↦
        let p : (m.nodes n).details.root ≡ y = (h.counted.present y n b.named).root in
        let up : 0 < occurrences (m.nodes n).details.root (chain d.root) =
          rw (p, e) (omega arith) in
        (n, i, ground (arith, b.deep))
  ]

  -- canCreate never panics. It lets a lock be made if and only if no lock overlaps with it.
  pub can_create_lem :
      IsRooted d.root
      → ((can_create m d.root d.zero_depth ≡ some true)
          × ((k : ℕ) → In k locks → overlaps d (m.nodes k).details ≡ false))
        ⊎ ((can_create m d.root d.zero_depth ≡ some false)
            × ((k : ℕ) × In k locks × (overlaps d (m.nodes k).details ≡ true)))
  unfolding can_create visit Conflict
  can_create_lem r =
      let (rest, e) = chain_cons d.root r in
      let walk = walk-chain (may_lock d.zero_depth) d.root true m r in
      elim name_cases [
        | inr (v, c) ↦ inr (rw (walk, e, v) refl, c)
        | inl (v, free) ↦ elim (visit-may_lock m d.zero_depth rest) [
          | inl (w, none_above) ↦ inl (rw (walk, e, v, w) refl, above_cases rest e free none_above)
          | inr (w, (y, n, lt, b)) ↦ inr (rw (walk, e, v, w) refl, blocked_conflict rest e y n lt b)
        ]
      ]
