-- ===== src/Webdav/Path/Walk.antt =====
-- walkToRoot visits a name and the names above it, nearest first, and ends at the root.
use cloudreve.Prelude.{
  ℕ, zero, suc, ◌<◌, ◌≤◌, ◌≡◌, refl, Bool, true, false, Option, none, some, List, [], ◌∷◌, ◌++◌,
  inl, inr, Bytes, eqb, if◌then◌else◌, length, arith, Option-cases, ◌>>=◌,
}
use cloudreve.Webdav.Path.{
  slash, before_last_slash, root_if_empty, walk_to_root, join_slash, slash_clean,
}

-- A rooted name: one that begins with a slash.
pub data IsRooted : Bytes → Type 0 where
  rooted : (cs : Bytes) → IsRooted (b'/' ∷ cs)

-- The names that a walk visits.
unfoldable pub ancestors : ℕ → Bytes → List Bytes
ancestors zero name = []
ancestors (suc fuel) name =
    let up : List Bytes = elim (before_last_slash name) [
      | none ↦ []
      | some p ↦ ancestors fuel (root_if_empty p)
    ] in
    name ∷ (if eqb name slash then [] else up)

unfoldable pub chain : Bytes → List Bytes
unfolding ancestors
chain name = ancestors (length name) name

before_last-length : (s p : Bytes) → before_last_slash s ≡ some p → length p < length s
unfolding before_last_slash
before_last-length [] p h = ground arith
before_last-length (c ∷ cs) p h = elim (Option-cases (before_last_slash cs)) [
  | inl e ↦ ground arith
  | inr (q, e) ↦ ground (arith, before_last-length cs q)
]

-- The name above a rooted name is rooted, and shorter unless the name is the root.
parent-IsRooted :
    (c : ℕ) (cs : Bytes)
    → (p : Bytes) × (before_last_slash (b'/' ∷ c ∷ cs) ≡ some p)
      × IsRooted (root_if_empty p)
      × (length (root_if_empty p) < length (b'/' ∷ c ∷ cs))
unfolding before_last_slash
parent-IsRooted c cs = elim (Option-cases (before_last_slash (c ∷ cs))) [
  | inl e ↦ ([], rw e refl, rooted [], omega arith)
  | inr (q, e) ↦ (b'/' ∷ q, rw e refl, rooted q, omega (arith, before_last-length (c ∷ cs) q e))
]

-- The walk as a fold over the names that it visits.
unfoldable pub visit {ℓ} :
    {S : Type ℓ}
    → (Bytes → Bool → S → Option (Bool × S))
    → List Bytes
    → Bool
    → S
    → Option (Bool × S)
visit f [] first s = some (true, s)
visit f (name ∷ names) first s = do
  (go, s') ← f name first s
  let rest = visit f names false s'
  if go then rest else some (false, s')

module _ {ℓ} {S : Type ℓ} (f : Bytes → Bool → S → Option (Bool × S)) where
  -- A walk from a rooted name, given as much fuel as the name is long, never runs out of it and
  -- never cuts a name that has no slash.
  pub walk-visit :
      (fuel : ℕ) (name : Bytes) (first : Bool) (s : S)
      → IsRooted name
      → length name ≤ fuel
      → walk_to_root f fuel name first s ≡ visit f (ancestors fuel name) first s
  unfolding walk_to_root visit ancestors eqb
  walk-visit zero name first s (rooted cs) h = absurd (omega arith)
  walk-visit (suc fuel) name first s (rooted []) h = elim (Option-cases (f slash first s)) [
    | inl e ↦ rw e refl
    | inr ((go, s'), e) ↦ ground arith
  ]
  walk-visit (suc fuel) name first s (rooted (c ∷ cs)) h =
      let (p, e, r, shorter) = parent-IsRooted c cs in
      elim (Option-cases (f (b'/' ∷ c ∷ cs) first s)) [
        | inl e' ↦ rw e' refl
        | inr ((go, s'), e') ↦
            ground (arith, e, e', walk-visit fuel (root_if_empty p) false s' r (omega arith))
      ]

  pub walk-chain :
      (name : Bytes) (first : Bool) (s : S)
      → IsRooted name
      → walk_to_root f (length name) name first s ≡ visit f (chain name) first s
  unfolding chain
  walk-chain name first s r = walk-visit (length name) name first s r (omega arith)

-- A walk visits the name itself first.
pub chain_cons : (name : Bytes) → IsRooted name → (rest : List Bytes) × (chain name ≡ name ∷ rest)
unfolding chain ancestors
chain_cons name (rooted cs) = (_, refl)

join_slash-IsRooted : (segs : List Bytes) → IsRooted (root_if_empty (join_slash segs))
unfolding join_slash
join_slash-IsRooted [] = rooted []
join_slash-IsRooted (seg ∷ rest) = rooted (seg ++ join_slash rest)

-- slashClean gives a rooted name, whatever the client sends.
pub slash_clean-IsRooted : (name : Bytes) → IsRooted (slash_clean name)
unfolding slash_clean
slash_clean-IsRooted name = join_slash-IsRooted _
