-- ===== src/Slices.antt =====
-- pkg/util/common.go: the helpers on slices of strings and numbers.
pub mod Sets
mod Tests
use cloudreve.Prelude.{ℕ, ◌+◌, ◌==◌, Bool, true, false, List, [], ◌∷◌, Bytes, eqb, if◌then◌else◌}

unfoldable pub contains_uint : List ℕ → ℕ → Bool
contains_uint [] e = false
contains_uint (a ∷ s) e = if a == e then true else contains_uint s e

unfoldable pub contains_string : List Bytes → Bytes → Bool
contains_string [] e = false
contains_string (a ∷ s) e = if eqb a e then true else contains_string s e

-- `m[v]` after the loop that counts.
unfoldable pub times : Bytes → List Bytes → ℕ
times v [] = 0
times v (x ∷ xs) = let rest = times v xs in if eqb x v then rest + 1 else rest

-- The loop that takes over the values with a given count.
unfoldable pub taken : ℕ → List Bytes → List Bytes → List Bytes
unfolding times
taken n counted [] = []
taken n counted (v ∷ s) =
    let rest = taken n counted s in if times v counted == n then v ∷ rest else rest

unfoldable pub slice_intersect : List Bytes → List Bytes → List Bytes
unfolding taken
slice_intersect slice1 slice2 = taken 1 slice1 slice2

unfoldable pub slice_difference : List Bytes → List Bytes → List Bytes
unfolding taken slice_intersect
slice_difference slice1 slice2 = taken 0 (slice_intersect slice1 slice2) slice1
