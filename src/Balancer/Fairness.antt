-- ===== src/Balancer/Fairness.antt =====
-- Every node gets its turn.
use native.Mathlib.Nat.{mod-lt, mod-add-mod, mod-eq_of_lt, add-mod_right}
use cloudreve.Prelude.{
  ℕ, zero, suc, ◌+◌, ◌-◌, ◌%◌, ◌<◌, ◌≤◌, ◌^◌, ◌≡◌, refl, sym, ap, ◌∙◌, some, List, [], length,
  get_elem?, ◌∷◌, u64, arith, Bool-cases, inl, inr, leb,
}
use cloudreve.Balancer.{Nodes, slice, peer, peer_at, RoundRobin, next_index, next_peer, get_elem?}

-- The balancer after so many calls with the same nodes.
unfoldable pub after : {A : Type 0} → ℕ → Nodes A → RoundRobin → RoundRobin
after zero nodes r = r
after (suc n) nodes r = after n nodes (next_peer nodes r).1

-- How many calls it takes until the turn of `i`.
turn : (start n i : ℕ) → i < n → (j : ℕ) × (j < n) × ((start + j) % n ≡ i)
turn start n i lt =
    let r = start % n in
    let small : start % n < n = mod-lt start (omega arith) in
    elim (Bool-cases (leb r i)) [
      | inl ahead ↦
          let le : start % n ≤ i = ground arith in
          let e : start % n + (i - start % n) ≡ i = omega arith in
          (
            i - r,
            omega arith,
            sym (mod-add-mod start n (i - r)) ∙ (ap (λ x. x % n) e ∙ mod-eq_of_lt lt),
          )
      | inr behind ↦
          let le : i < start % n = ground arith in
          let e : start % n + (i + n - start % n) ≡ i + n = omega arith in
          (
            i + n - r,
            omega arith,
            sym (mod-add-mod start n (i + n - r))
                ∙ (ap (λ x. x % n) e ∙ (add-mod_right i n ∙ mod-eq_of_lt lt)),
          )
    ]

after-current :
    {A : Type 0} (j : ℕ) (x : A) (xs : List A) (r : RoundRobin)
    → r.current + j < 2 ^ 64
    → (after j (slice (x ∷ xs)) r).current ≡ r.current + j
unfolding after next_peer next_index
after-current zero x xs r h = omega arith
after-current (suc j) x xs r h =
    let wrap : (r.current + 1) % u64 ≡ r.current + 1 = omega arith in
    let rest = after-current j x xs (next_peer (slice (x ∷ xs)) r).1 (omega arith) in
    rest ∙ omega arith

pub get_elem?_inside :
    {A : Type 0} (xs : List A) (i : ℕ) → i < length xs → (x : A) × (get_elem? xs i ≡ some x)
get_elem?_inside [] i lt = let no : ⊥ = omega arith in elim no [ ]
get_elem?_inside (x ∷ xs) zero lt = (x, refl)
get_elem?_inside (x ∷ xs) (suc i) lt = get_elem?_inside xs i (omega arith)

-- While the counter does not wrap around, each node of the slice is chosen in one of the next as
-- many calls as there are nodes.
pub next_peer-after :
    {A : Type 0} (x : A) (xs : List A) (r : RoundRobin) (i : ℕ)
    → i < length (x ∷ xs)
    → r.current + length (x ∷ xs) < 2 ^ 64
    → (j : ℕ) × (j < length (x ∷ xs))
      × ((node : A) × (get_elem? (x ∷ xs) i ≡ some node)
          × ((next_peer (slice (x ∷ xs)) (after j (slice (x ∷ xs)) r)).0 ≡ some (peer node)))
unfolding next_peer next_index peer_at
next_peer-after x xs r i lt h =
    let found = turn (r.current + 1) (length (x ∷ xs)) i lt in
    let node = get_elem?_inside (x ∷ xs) i lt in
    let before = after-current found.0 x xs r (omega arith) in
    let wrap : (r.current + found.0 + 1) % u64 ≡ r.current + 1 + found.0 = omega arith in
    (found.0, found.1, (node.0, node.1, rw (before, wrap, found.2, node.1) refl))
