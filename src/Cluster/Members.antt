-- ===== src/Cluster/Members.antt =====
-- The pool as a map from identifiers to nodes with their status, and what a change of its maps says.
use cloudreve.Prelude.{
  ℕ, ◌==◌, ==→≡, ◌≡◌, refl, ◌∙◌, Bool, true, false, Option, none, some, Assoc, find, put, erase,
  nat_eq, bytes_eq, ◌⊎◌, inl, inr, Bool-cases, find-put_same, find-put_other, find-remove_same,
  find-remove_other,
}
use cloudreve.Cluster.{PoolNode, NodePool}
use cloudreve.Cluster.Valid.{NoNil, IsUnindexed, NoNil-put, NoNil-find}

-- Membership is apart: in a map, out of the other.
abbrev pub Apart : Assoc ℕ (Option PoolNode) → Assoc ℕ (Option PoolNode) → Type 0
Apart m m' = (id : ℕ) → (find id m ≡ none) ⊎ (find id m' ≡ none)

pub Apart-comm : (m m' : Assoc ℕ (Option PoolNode)) → Apart m m' → Apart m' m
Apart-comm m m' h id = elim (h id) [ inl e ↦ inr e | inr e ↦ inl e ]

pub Apart-erase : (id : ℕ) (m m' : Assoc ℕ (Option PoolNode)) → Apart m m' → Apart (erase id m) m'
Apart-erase id m m' h j = elim (Bool-cases (j == id)) [
  | inl same ↦ inl (rw (==→≡ j id same) (find-remove_same id m))
  | inr other ↦ elim (h j) [ inl e ↦ inl (find-remove_other j id m other ∙ e) | inr e ↦ inr e ]
]

pub Apart-put :
    (id : ℕ) (n : Option PoolNode) (m m' : Assoc ℕ (Option PoolNode))
    → find id m' ≡ none
    → Apart m m'
    → Apart (put id n m) m'
Apart-put id n m m' out h j = elim (Bool-cases (j == id)) [
  | inl same ↦ inr (rw (==→≡ j id same) out)
  | inr other ↦ elim (h j) [ inl e ↦ inl (find-put_other j id n m other ∙ e) | inr e ↦ inr e ]
]

-- The node under an identifier, and the map that it stands in.
pub data Place (id : ℕ) (p : NodePool) : Type 0 where
  nowhere : find id p.active ≡ none → find id p.inactive ≡ none → Place id p
  among_active :
      (n : PoolNode) → find id p.active ≡ some (some n) → find id p.inactive ≡ none → Place id p
  among_inactive :
      (n : PoolNode) → find id p.active ≡ none → find id p.inactive ≡ some (some n) → Place id p

pub place : (id : ℕ) (p : NodePool) → IsUnindexed p → Place id p
place id p h = elim (NoNil-find id p.active h.active_no_nil) [
  | inl out ↦ elim (NoNil-find id p.inactive h.inactive_no_nil) [
    | inl e ↦ nowhere out e
    | inr (n, e) ↦ among_inactive n out e
  ]
  | inr (n, found) ↦ elim (h.apart id) [
    | inl e ↦ let no_way : ⊥ = cc in elim no_way [ ]
    | inr e ↦ among_active n found e
  ]
]

-- What the pool says of an identifier: whether its node is active, and the node.
abbrev pub status :
    Option (Option PoolNode) → Option (Option PoolNode) → Option (Bool × Option PoolNode)
status (some n) i = some (true, n)
status none (some n) = some (false, n)
status none none = none

abbrev pub status_of : ℕ → NodePool → Option (Bool × Option PoolNode)
status_of id p = status (find id p.active) (find id p.inactive)

-- `q` is a pool that says `s` of `id`, and of the others what `p` says.
pub record Says (id : ℕ) (s : Option (Bool × Option PoolNode)) (p q : NodePool) : Type 0 where
  pub valid : IsUnindexed q
  pub here : status_of id q ≡ s
  pub elsewhere : (j : ℕ) → (j == id) ≡ false → status_of j q ≡ status_of j p

-- Maps that agree off one identifier.
abbrev pub Agree : ℕ → Assoc ℕ (Option PoolNode) → Assoc ℕ (Option PoolNode) → Type 0
Agree id m m' = (j : ℕ) → (j == id) ≡ false → find j m' ≡ find j m

pub Agree-refl : (id : ℕ) (m : Assoc ℕ (Option PoolNode)) → Agree id m m
Agree-refl id m j other = refl

pub Agree-erase : (id : ℕ) (m : Assoc ℕ (Option PoolNode)) → Agree id m (erase id m)
Agree-erase id m j other = find-remove_other j id m other

module _ (id : ℕ) (p : NodePool) (h : IsUnindexed p) (a i : Assoc ℕ (Option PoolNode))
    (na : NoNil a) (ni : NoNil i) (apart : Apart a i) (same_a : Agree id p.active a)
    (same_i : Agree id p.inactive i) where
  pub put_active-Says :
      (n : PoolNode)
      → find id i ≡ none
      → Says id (some (true, some n)) p (record p { active = put id (some n) a; inactive = i })
  put_active-Says n out = record {
    valid = record {
      active_no_nil = NoNil-put id n a na;
      inactive_no_nil = ni;
      apart = Apart-put id (some n) a i out apart;
      only_aria2 = h.only_aria2;
    };
    here = rw (find-put_same id (some n) a) refl;
    elsewhere =
        λ j other. rw (find-put_other j id (some n) a other, same_a j other, same_i j other) refl;
  }

  pub put_inactive-Says :
      (n : PoolNode)
      → find id a ≡ none
      → Says id (some (false, some n)) p (record p { active = a; inactive = put id (some n) i })
  put_inactive-Says n out = record {
    valid = record {
      active_no_nil = na;
      inactive_no_nil = NoNil-put id n i ni;
      apart = Apart-comm _ _ (Apart-put id (some n) i a out (Apart-comm _ _ apart));
      only_aria2 = h.only_aria2;
    };
    here = rw (out, find-put_same id (some n) i) refl;
    elsewhere =
        λ j other. rw (find-put_other j id (some n) i other, same_a j other, same_i j other) refl;
  }

  pub gone-Says :
      find id a ≡ none → find id i ≡ none → Says id none p (record p { active = a; inactive = i })
  gone-Says out_a out_i = record {
    valid = record {
      active_no_nil = na;
      inactive_no_nil = ni;
      apart = apart;
      only_aria2 = h.only_aria2;
    };
    here = rw (out_a, out_i) refl;
    elsewhere = λ j other. rw (same_a j other, same_i j other) refl;
  }
