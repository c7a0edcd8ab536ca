-- ===== src/Balancer/Tests.antt =====
-- Three nodes.
use cloudreve.Prelude.{ℕ, ◌<◌, ◌≡◌, refl, some, List, [], length, get_elem?, ◌∷◌, arith}
use cloudreve.Balancer.{RoundRobin, slice, peer, next_peer, next_index}
use cloudreve.Balancer.Fairness.{after, next_peer-after}

abbrev fresh : RoundRobin
fresh = record { current = 0 }

abbrev three : List ℕ
three = 7 ∷ 8 ∷ 9 ∷ []

second_first : (next_peer (slice three) fresh).0 ≡ some (peer 8)
unfolding next_peer next_index
second_first = refl

next_peer-after_example :
    (j : ℕ) × (j < length three)
    × ((node : ℕ) × (get_elem? three 0 ≡ some node)
        × ((next_peer (slice three) (after j (slice three) fresh)).0 ≡ some (peer node)))
next_peer-after_example = next_peer-after {A = ℕ} 7 (8 ∷ 9 ∷ []) fresh 0 (omega arith) (omega arith)
