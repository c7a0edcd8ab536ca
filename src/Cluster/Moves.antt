-- ===== src/Cluster/Moves.antt =====
-- What each method does to the members of the pool, and that it keeps the invariant.
use cloudreve.Prelude.{
  ℕ, ◌≡◌, refl, sym, ap, ◌∙◌, Bool, true, false, Option, none, some, List, [], ◌∷◌, ◌>>=◌, Bytes,
  find, erase, nat_eq, bytes_eq, inl, inr, Bool-cases, find-remove_same,
}
use cloudreve.Cluster.{
  subscribe, NodeModel, PoolNode, NodePool, Effect, kill, is_active, new_node, can_init,
  new_node_from_db_model, register, init, node_at, take_out, put_back, add, add_or_init, old_node,
  delete_entry,
}
use cloudreve.Cluster.Valid.{IsUnindexed, NoNil-erase}
use cloudreve.Cluster.Members.{
  Apart, Apart-comm, Apart-erase, nowhere, among_active, among_inactive, place, status_of, Says,
  Agree-refl, Agree-erase, put_active-Says, put_inactive-Says, gone-Says,
}

Says-at :
    {id : ℕ} {s : Option (Bool × Option PoolNode)} {p q q' : NodePool}
    → q' ≡ q
    → Says id s p q
    → Says id s p q'
Says-at e h = rw e h

module _ (id : ℕ) (p : NodePool) (h : IsUnindexed p) where
  without_active : Apart (erase id p.active) p.inactive
  without_active = Apart-erase id p.active p.inactive h.apart

  without_inactive : Apart p.active (erase id p.inactive)
  without_inactive = Apart-comm _ _ (Apart-erase id p.inactive p.active (Apart-comm _ _ h.apart))

  take_active :
      (m : PoolNode)
      → find id p.active ≡ some (some m)
      → find id p.inactive ≡ none
      → take_out id p ≡ (some m, record p { active = erase id p.active })
  take_active m a i = rw (take_out, i, node_at, a) refl

  take_inactive :
      (m : PoolNode)
      → find id p.inactive ≡ some (some m)
      → take_out id p ≡ (some m, record p { inactive = erase id p.inactive })
  take_inactive m i = rw (take_out, i) refl

  active-Says :
      (b : Bool) (m : PoolNode)
      → find id p.active ≡ some (some m)
      → find id p.inactive ≡ none
      → Says id (some (b, some m)) p (put_back b id (take_out id p))
  active-Says true m a i = Says-at (ap (put_back true id) (take_active m a i)) (
      put_active-Says id p h (erase id p.active) p.inactive
        (NoNil-erase id p.active h.active_no_nil) h.inactive_no_nil without_active
        (Agree-erase id p.active) (Agree-refl id p.inactive) m i)
  active-Says false m a i = Says-at (ap (put_back false id) (take_active m a i)) (
      put_inactive-Says id p h (erase id p.active) p.inactive
        (NoNil-erase id p.active h.active_no_nil) h.inactive_no_nil without_active
        (Agree-erase id p.active) (Agree-refl id p.inactive) m (find-remove_same id p.active))

  inactive-Says :
      (b : Bool) (m : PoolNode)
      → find id p.active ≡ none
      → find id p.inactive ≡ some (some m)
      → Says id (some (b, some m)) p (put_back b id (take_out id p))
  inactive-Says true m a i = Says-at (ap (put_back true id) (take_inactive m i)) (
      put_active-Says id p h p.active (erase id p.inactive) h.active_no_nil
        (NoNil-erase id p.inactive h.inactive_no_nil) without_inactive (Agree-refl id p.active)
        (Agree-erase id p.inactive) m (find-remove_same id p.inactive))
  inactive-Says false m a i = Says-at (ap (put_back false id) (take_inactive m i)) (
      put_inactive-Says id p h p.active (erase id p.inactive) h.active_no_nil
        (NoNil-erase id p.inactive h.inactive_no_nil) without_inactive (Agree-refl id p.active)
        (Agree-erase id p.inactive) m a)

  -- A node that the pool knows.
  pub put_back-Says :
      (b old : Bool) (n : Option PoolNode)
      → status_of id p ≡ some (old, n)
      → Says id (some (b, n)) p (put_back b id (take_out id p))
  put_back-Says b old n known = elim (place id p h) [
    | nowhere a i ↦
        let computed : status_of id p ≡ none = rw (a, i) refl in
        let lost : none ≡ some (old, n) = sym computed ∙ known in
        let no_way : ⊥ = cc in elim no_way [ ]
    | among_active m a i ↦
        let computed : status_of id p ≡ some (true, some m) = rw a refl in
        let same : some (true, some m) ≡ some (old, n) = sym computed ∙ known in
        let e : n ≡ some m = cc in rw e (active-Says b m a i)
    | among_inactive m a i ↦
        let computed : status_of id p ≡ some (false, some m) = rw (a, i) refl in
        let same : some (false, some m) ≡ some (old, n) = sym computed ∙ known in
        let e : n ≡ some m = cc in rw e (inactive-Says b m a i)
  ]

  pub delete_entry-Says :
      (r : NodePool × List Effect) × (delete_entry id p ≡ some r) × Says id none p r.0
  unfolding delete_entry
  delete_entry-Says = elim (place id p h) [
    | nowhere a i ↦ (
      (p, []),
      rw (delete_entry, a, i) refl,
      gone-Says id p h p.active p.inactive h.active_no_nil h.inactive_no_nil h.apart
          (Agree-refl id p.active) (Agree-refl id p.inactive) a i,
    )
    | among_active m a i ↦ (
      (record p { active = erase id p.active }, kill m ∷ []),
      rw (delete_entry, a, ◌>>=◌) refl,
      gone-Says id p h (erase id p.active) p.inactive (NoNil-erase id p.active h.active_no_nil)
          h.inactive_no_nil without_active (Agree-erase id p.active) (Agree-refl id p.inactive)
          (find-remove_same id p.active) i,
    )
    | among_inactive m a i ↦ (
      (record p { inactive = erase id p.inactive }, kill m ∷ []),
      rw (delete_entry, a, i, ◌>>=◌) refl,
      gone-Says id p h p.active (erase id p.inactive) h.active_no_nil
          (NoNil-erase id p.inactive h.inactive_no_nil) without_inactive (Agree-refl id p.active)
          (Agree-erase id p.inactive) a (find-remove_same id p.inactive),
    )
  ]

-- What `Add` leaves under the identifier of the row.
abbrev pub added : NodeModel → Option (Bool × Option PoolNode) → Option (Bool × Option PoolNode)
added m (some s) = some s
added m none = some (is_active (new_node m), some (new_node m))

unchanged :
    (id : ℕ) (p : NodePool) {s : Option (Bool × Option PoolNode)}
    → IsUnindexed p
    → status_of id p ≡ s
    → Says id s p p
unchanged id p h e = record { valid = h; here = e; elsewhere = λ j other. refl }

register-Says :
    (m : NodeModel) (p : NodePool)
    → IsUnindexed p
    → find m.id p.active ≡ none
    → find m.id p.inactive ≡ none
    → Says m.id (added m none) p (register m (new_node m) p).0
register-Says m p h a i = elim (Bool-cases (is_active (new_node m))) [
  | inl on ↦ rw on (
      put_active-Says m.id p h p.active p.inactive h.active_no_nil h.inactive_no_nil h.apart
        (Agree-refl m.id p.active) (Agree-refl m.id p.inactive) (new_node m) i)
  | inr off ↦ rw off (
      put_inactive-Says m.id p h p.active p.inactive h.active_no_nil h.inactive_no_nil h.apart
        (Agree-refl m.id p.active) (Agree-refl m.id p.inactive) (new_node m) a)
]

-- How the part of `Add` that holds the mutex ends: with the row as that of a node that was there, with
-- a new node, or with the panic of its Init.
pub data AddOrInit (parses : Bytes → Bool) (m : NodeModel) (p : NodePool)
    : Option (NodePool × List Effect) → Type 0 where
  was_known :
      (q : NodePool) (b : Bool) (n : PoolNode)
      → status_of m.id p ≡ some (b, some n)
      → Says m.id (some (b, some n)) p q
      → AddOrInit parses m p (some (q, init n m ∷ []))
  new :
      (q : NodePool)
      → status_of m.id p ≡ none
      → can_init parses m ≡ true
      → Says m.id (added m none) p q
      → AddOrInit parses m p (some (q, subscribe (new_node m) ∷ []))
  fails : status_of m.id p ≡ none → can_init parses m ≡ false → AddOrInit parses m p none

pub add_or_init-Ends :
    (parses : Bytes → Bool) (m : NodeModel) (p : NodePool)
    → IsUnindexed p
    → AddOrInit parses m p (add_or_init parses m p)
unfolding add_or_init add new_node_from_db_model
add_or_init-Ends parses m p h = elim (place m.id p h) [
  | nowhere a i ↦
      let e : old_node m.id p ≡ none = rw (old_node, a, node_at, i) refl in
      elim (Bool-cases (can_init parses m)) [
        | inl good ↦
            rw (add_or_init, e, add, new_node_from_db_model, good, ◌>>=◌)
              (new (register m (new_node m) p).0 (rw (a, i) refl) good (register-Says m p h a i))
        | inr bad ↦
            rw (add_or_init, e, add, new_node_from_db_model, bad, ◌>>=◌)
              (fails (rw (a, i) refl) bad)
      ]
  | among_active n a i ↦
      let e : old_node m.id p ≡ some n = rw (old_node, a) refl in
      let s : status_of m.id p ≡ some (true, some n) = rw a refl in
      rw (add_or_init, e) (was_known p true n s (unchanged m.id p h s))
  | among_inactive n a i ↦
      let e : old_node m.id p ≡ some n = rw (old_node, a, node_at, i) refl in
      let s : status_of m.id p ≡ some (false, some n) = rw (a, i) refl in
      rw (add_or_init, e) (was_known p false n s (unchanged m.id p h s))
]
