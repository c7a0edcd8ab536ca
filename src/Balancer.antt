-- ===== src/Balancer.antt =====
-- pkg/balancer/roundrobin.go: the node that takes the next request.
pub mod Fairness
mod Tests
use cloudreve.Prelude.{
  ℕ, zero, suc, ◌+◌, ◌-◌, ◌%◌, ◌<◌, ◌≡◌, refl, Option, none, some, List, [], length, get_elem?, ◌∷◌,
  u64,
}

-- The argument, whose kind `reflect` tells at run time.
pub data Nodes (A : Type 0) : Type 0 where
  not_slice : Nodes A
  slice : List A → Nodes A

pub data Peer (A : Type 0) : Type 0 where
  err_input_not_slice : Peer A
  err_no_available_node : Peer A
  peer : A → Peer A

pub record RoundRobin : Type 0 where
  pub current : ℕ

unfoldable pub next_index : ℕ → RoundRobin → ℕ × RoundRobin
next_index total r = let next = (r.current + 1) % u64 in (next % total, record { current = next })

unfoldable pub peer_at : {A : Type 0} → Option A → Option (Peer A)
peer_at none = none
peer_at (some x) = some (peer x)

-- The answer, or `none` for a panic.
unfoldable pub next_peer : {A : Type 0} → Nodes A → RoundRobin → Option (Peer A) × RoundRobin
unfolding next_index peer_at
next_peer not_slice r = (some err_input_not_slice, r)
next_peer (slice []) r = (some err_no_available_node, r)
next_peer (slice (x ∷ xs)) r =
    let chosen = next_index (length (x ∷ xs)) r in (peer_at (get_elem? (x ∷ xs) chosen.0), chosen.1)
