-- ===== src/Cluster/Balance.antt =====
-- Which node the pool gives to a balancer's choice.
use native.Mathlib.Nat.{mod-lt}
use cloudreve.Prelude.{
  ℕ, zero, suc, ◌+◌, ◌<◌, ◌%◌, ◌≡◌, refl, sym, ap, ◌∙◌, true, Option, none, some, List, [], ◌∷◌,
  ◌>>=◌, Bytes, eqb, Assoc, find, nat_eq, bytes_eq, ◌⊎◌, inl, inr, Bool-cases, eqb→≡, length,
  get_elem?, u64, arith,
}
use cloudreve.Balancer.{
  peer, err_no_available_node, slice, RoundRobin, next_peer, next_index, peer_at,
}
use cloudreve.Balancer.Fairness.{get_elem?_inside}
use cloudreve.Cluster.{
  PoolNode, NodePool, is_feature_enabled, Balanced, balanced, err_feature_not_exist,
  balance_node_by_feature,
}
use cloudreve.Cluster.Valid.{IsPool, enabled, aria2}

-- The map has an entry for the node.
abbrev pub Has : PoolNode → Assoc ℕ (Option PoolNode) → Type 0
Has n [] = ⊥
Has n ((id, none) ∷ m) = Has n m
Has n ((id, some n') ∷ m) = (n ≡ n') ⊎ Has n m

-- What the pool answers: that no index has the feature, that no active node has it, or an active node
-- that has it.
pub data Chosen (feature : Bytes) (p : NodePool) (b : Balanced) : Type 0 where
  no_index : find feature p.feature_map ≡ none → b ≡ err_feature_not_exist → Chosen feature p b
  no_node : enabled feature p.active ≡ [] → b ≡ balanced err_no_available_node → Chosen feature p b
  node :
      (n : PoolNode)
      → Has n p.active
      → is_feature_enabled feature n ≡ true
      → b ≡ balanced (peer n)
      → Chosen feature p b

cons_cases :
    (x : PoolNode) (xs : List PoolNode) (i : ℕ) (n : PoolNode)
    → get_elem? (x ∷ xs) i ≡ some n
    → (n ≡ x) ⊎ ((j : ℕ) × (get_elem? xs j ≡ some n))
cons_cases x xs zero n e = inl (cc)
cons_cases x xs (suc j) n e = inr (j, e)

enabled-Has :
    (f : Bytes) (m : Assoc ℕ (Option PoolNode)) (i : ℕ) (n : PoolNode)
    → get_elem? (enabled f m) i ≡ some n
    → Has n m × (is_feature_enabled f n ≡ true)
enabled-Has f [] i n e = let no_way : ⊥ = cc in elim no_way [ ]
enabled-Has f ((id, none) ∷ m) i n e = enabled-Has f m i n e
enabled-Has f ((id, some n') ∷ m) i n e = elim (Bool-cases (is_feature_enabled f n')) [
  | inl has ↦
      let shown : get_elem? (n' ∷ enabled f m) i ≡ some n = sym (rw has refl) ∙ e in
      elim (cons_cases n' (enabled f m) i n shown) [
        | inl same ↦ (inl same, rw same has)
        | inr (j, later) ↦ let rest = enabled-Has f m j n later in (inr rest.0, rest.1)
      ]
  | inr lacks ↦ let rest = enabled-Has f m i n (sym (rw lacks refl) ∙ e) in (inr rest.0, rest.1)
]

next_peer-cons :
    {A : Type 0} (x : A) (xs : List A) (r : RoundRobin)
    → (i : ℕ) × (a : A) × (get_elem? (x ∷ xs) i ≡ some a)
      × ((next_peer (slice (x ∷ xs)) r).0 ≡ some (peer a))
unfolding next_peer next_index peer_at
next_peer-cons x xs r =
    let i = (r.current + 1) % u64 % length (x ∷ xs) in
    let lt : i < length (x ∷ xs) = mod-lt ((r.current + 1) % u64) (omega arith) in
    let a = get_elem?_inside (x ∷ xs) i lt in (i, a.0, a.1, rw a.1 refl)

Chosen-among :
    (f : Bytes) (p : NodePool) (ns : List PoolNode) (lb : RoundRobin)
    → find f p.feature_map ≡ some ns
    → ns ≡ enabled f p.active
    → (b : Balanced) × ((balance_node_by_feature f lb p).0 ≡ some b) × Chosen f p b
unfolding balance_node_by_feature next_peer
Chosen-among f p [] lb found e = (
  balanced err_no_available_node,
  rw (balance_node_by_feature, found, ◌>>=◌) refl,
  no_node (sym e) refl,
)
Chosen-among f p (x ∷ xs) lb found e =
    let chosen = next_peer-cons x xs lb in
    let member =
      enabled-Has f p.active chosen.0 chosen.1
        (ap (λ l. get_elem? l chosen.0) (sym e) ∙ chosen.2) in
    (
      balanced (peer chosen.1),
      rw (balance_node_by_feature, found, chosen.3, ◌>>=◌) refl,
      node chosen.1 member.0 member.1 refl,
    )

not_indexed :
    (f : Bytes) (p : NodePool) (lb : RoundRobin)
    → find f p.feature_map ≡ none
    → (b : Balanced) × ((balance_node_by_feature f lb p).0 ≡ some b) × Chosen f p b
unfolding balance_node_by_feature
not_indexed f p lb missing =
    (err_feature_not_exist, rw (balance_node_by_feature, missing) refl, no_index missing refl)

-- BalanceNodeByFeature never panics on a valid pool, and gives an active node with the feature unless
-- there is none or the feature has no index.
pub balance_node_by_feature-Chosen :
    (feature : Bytes) (lb : RoundRobin) (p : NodePool)
    → IsPool p
    → (b : Balanced) × ((balance_node_by_feature feature lb p).0 ≡ some b) × Chosen feature p b
unfolding balance_node_by_feature
balance_node_by_feature-Chosen feature lb p h = elim (Bool-cases (eqb feature aria2)) [
  | inl same ↦
      let e : feature ≡ aria2 = eqb→≡ feature aria2 same in
      elim h.indexed [
        | inl missing ↦ not_indexed feature p lb (ap (λ f. find f p.feature_map) e ∙ missing)
        | inr found ↦ rw e (Chosen-among aria2 p (enabled aria2 p.active) lb found refl)
      ]
  | inr other ↦ not_indexed feature p lb (h.only_aria2 feature other)
]
