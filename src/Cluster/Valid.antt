-- ===== src/Cluster/Valid.antt =====
-- The invariant of the pool, and what the index holds.
use cloudreve.Prelude.{
  ℕ, ◌==◌, ◌≡◌, refl, sym, ap, ◌∙◌, false, Option, none, some, List, [], ◌∷◌, ◌++◌, ◌>>=◌, Bytes,
  codes, eqb, Assoc, find, put, erase, nat_eq, bytes_eq, if◌then◌else◌, ◌⊎◌, inl, inr, Bool-cases,
  find-put_same, find-put_other,
}
use mathlib.Core.List.{append-nil, append_assoc}
use cloudreve.Cluster.{
  PoolNode, NodePool, is_feature_enabled, clear_features, append_feature, index_node, index_nodes,
  build_index_map,
}

abbrev pub aria2 : Bytes
aria2 = codes "aria2"

-- No entry holds nil.
abbrev pub NoNil : Assoc ℕ (Option PoolNode) → Type 0
NoNil [] = Unit
NoNil ((id, none) ∷ m) = ⊥
NoNil ((id, some n) ∷ m) = NoNil m

-- The nodes of a map that have the feature, in the order of the map.
abbrev pub enabled : Bytes → Assoc ℕ (Option PoolNode) → List PoolNode
enabled f [] = []
enabled f ((id, none) ∷ m) = enabled f m
enabled f ((id, some n) ∷ m) =
    let rest = enabled f m in if is_feature_enabled f n then n ∷ rest else rest

-- The index has no other feature than those of the group.
abbrev pub OnlyAria2 : Assoc Bytes (List PoolNode) → Type 0
OnlyAria2 m = (f : Bytes) → eqb f aria2 ≡ false → find f m ≡ none

pub record IsPool (p : NodePool) : Type 0 where
  pub active_no_nil : NoNil p.active
  pub inactive_no_nil : NoNil p.inactive
  pub apart : (id : ℕ) → (find id p.active ≡ none) ⊎ (find id p.inactive ≡ none)
  pub only_aria2 : OnlyAria2 p.feature_map
  pub indexed :
      (find aria2 p.feature_map ≡ none) ⊎ (find aria2 p.feature_map ≡ some (enabled aria2 p.active))

-- What a pool is before the index is built anew.
pub record IsUnindexed (p : NodePool) : Type 0 where
  pub active_no_nil : NoNil p.active
  pub inactive_no_nil : NoNil p.inactive
  pub apart : (id : ℕ) → (find id p.active ≡ none) ⊎ (find id p.inactive ≡ none)
  pub only_aria2 : OnlyAria2 p.feature_map

OnlyAria2-put :
    (ns : List PoolNode) (m : Assoc Bytes (List PoolNode))
    → OnlyAria2 m
    → OnlyAria2 (put aria2 ns m)
OnlyAria2-put ns m h f other = find-put_other f aria2 ns m other ∙ h f other

index_nodes_lem :
    (nodes : Assoc ℕ (Option PoolNode)) (m : Assoc Bytes (List PoolNode)) (ns : List PoolNode)
    → NoNil nodes
    → OnlyAria2 m
    → find aria2 m ≡ some ns
    → (m' : Assoc Bytes (List PoolNode)) × (index_nodes nodes m ≡ some m')
      × OnlyAria2 m'
      × (find aria2 m' ≡ some (ns ++ enabled aria2 nodes))
unfolding index_nodes index_node
index_nodes_lem [] m ns h only e = (m, refl, only, e ∙ ap some (sym (append-nil ns)))
index_nodes_lem ((id, none) ∷ nodes) m ns h only e = elim h [ ]
index_nodes_lem ((id, some n) ∷ nodes) m ns h only e =
    elim (Bool-cases (is_feature_enabled aria2 n)) [
      | inl has ↦
          let next = append_feature aria2 n m in
          let appended : append_feature aria2 n m ≡ put aria2 (ns ++ (n ∷ [])) m = rw e refl in
          let found : find aria2 next ≡ some (ns ++ (n ∷ [])) =
            ap (find aria2) appended ∙ find-put_same aria2 (ns ++ (n ∷ [])) m in
          let rest = index_nodes_lem nodes next (ns ++ (n ∷ [])) h (OnlyAria2-put _ m only) found in
          (
            rest.0,
            rw has rest.1,
            rest.2,
            rest.3 ∙ ap some (append_assoc ns (n ∷ []) (enabled aria2 nodes) ∙ rw has refl),
          )
      | inr lacks ↦
          let rest = index_nodes_lem nodes m ns h only e in
          (rest.0, rw lacks rest.1, rest.2, rw lacks rest.3)
    ]

-- buildIndexMap makes a pool whose index is right.
pub build_index_map-IsPool :
    (p : NodePool)
    → IsUnindexed p
    → (q : NodePool) × (build_index_map p ≡ some q)
      × IsPool q
      × (q.active ≡ p.active)
      × (q.inactive ≡ p.inactive)
unfolding build_index_map clear_features
build_index_map-IsPool p h =
    let cleared = put aria2 [] p.feature_map in
    let r =
      index_nodes_lem p.active cleared [] h.active_no_nil
        (OnlyAria2-put [] p.feature_map h.only_aria2) (find-put_same aria2 [] p.feature_map) in
    (
      record p { feature_map = r.0 },
      rw (r.1, ◌>>=◌) refl,
      record {
        active_no_nil = h.active_no_nil;
        inactive_no_nil = h.inactive_no_nil;
        apart = h.apart;
        only_aria2 = r.2;
        indexed = inr r.3;
      },
      refl,
      refl,
    )

pub IsPool-IsUnindexed : {p : NodePool} → IsPool p → IsUnindexed p
IsPool-IsUnindexed h = record {
  active_no_nil = h.active_no_nil;
  inactive_no_nil = h.inactive_no_nil;
  apart = h.apart;
  only_aria2 = h.only_aria2;
}

pub NoNil-erase : (id : ℕ) (m : Assoc ℕ (Option PoolNode)) → NoNil m → NoNil (erase id m)
unfolding erase
NoNil-erase id [] h = h
NoNil-erase id ((j, none) ∷ m) h = elim h [ ]
NoNil-erase id ((j, some n) ∷ m) h = elim (Bool-cases (id == j)) [
  | inl same ↦ rw (erase, same) (NoNil-erase id m h)
  | inr other ↦ rw (erase, other) (NoNil-erase id m h)
]

pub NoNil-put :
    (id : ℕ) (n : PoolNode) (m : Assoc ℕ (Option PoolNode)) → NoNil m → NoNil (put id (some n) m)
unfolding put
NoNil-put id n m h = NoNil-erase id m h

-- A map without nil has a node under an identifier, or no entry.
pub NoNil-find :
    (id : ℕ) (m : Assoc ℕ (Option PoolNode))
    → NoNil m
    → (find id m ≡ none) ⊎ ((n : PoolNode) × (find id m ≡ some (some n)))
unfolding find
NoNil-find id [] h = inl refl
NoNil-find id ((j, none) ∷ m) h = elim h [ ]
NoNil-find id ((j, some n) ∷ m) h = elim (Bool-cases (id == j)) [
  | inl same ↦ inr (n, rw same refl)
  | inr other ↦ elim (NoNil-find id m h) [
    | inl e ↦ inl (rw other e)
    | inr (n', e) ↦ inr (n', rw other e)
  ]
]
