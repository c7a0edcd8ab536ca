-- ===== src/Slices/Sets.antt =====
-- The intersection and the difference of slices as those of sets.
use cloudreve.Prelude.{
  ℕ, ◌≤◌, ◌==◌, ◌≡◌, refl, ap, Bool, true, false, not, ◌&&◌, List, [], ◌∷◌, Bytes, eqb, eqb→≡,
  Bool-cases, inl, inr, arith,
}
use cloudreve.Slices.{contains_string, times, taken, slice_intersect, slice_difference}

&&-false : (a : Bool) → (a && false) ≡ false
&&-false true = refl
&&-false false = refl

contains_string-taken :
    (n : ℕ) (counted s : List Bytes) (v : Bytes)
    → contains_string (taken n counted s) v ≡ (contains_string s v && (times v counted == n))
unfolding contains_string taken
contains_string-taken n counted [] v = refl
contains_string-taken n counted (x ∷ s) v =
    let rest = contains_string-taken n counted s v in
    elim (Bool-cases (eqb x v)) [
      | inl same ↦
          let e : times x counted ≡ times v counted = ap (λ y. times y counted) (eqb→≡ x v same) in
          elim (Bool-cases (times v counted == n)) [
            | inl right ↦ rw (e, right, contains_string, same) refl
            | inr wrong ↦
                rw (e, wrong, contains_string, same, rest, wrong) (&&-false (contains_string s v))
          ]
      | inr other ↦ elim (Bool-cases (times x counted == n)) [
        | inl right ↦ rw (right, contains_string, other) rest
        | inr wrong ↦ rw (wrong, contains_string, other) rest
      ]
    ]

times-contains_string : (v : Bytes) (s : List Bytes) → (times v s == 0) ≡ not (contains_string s v)
unfolding times contains_string
times-contains_string v [] = refl
times-contains_string v (x ∷ s) = ground (arith, times-contains_string v s)

once : (v : Bytes) (s : List Bytes) → times v s ≤ 1 → (times v s == 1) ≡ contains_string s v
once v s h = let none_in = times-contains_string v s in ground arith

inside_both : (a b c t : Bool) → c ≡ (b && t) → t ≡ a → c ≡ (a && b)
inside_both true true c t e f = ground arith
inside_both true false c t e f = ground arith
inside_both false true c t e f = ground arith
inside_both false false c t e f = ground arith

inside_first : (a b c d z : Bool) → d ≡ (a && z) → z ≡ not c → c ≡ (a && b) → d ≡ (a && not b)
inside_first true true c d z e f g = ground arith
inside_first true false c d z e f g = ground arith
inside_first false true c d z e f g = ground arith
inside_first false false c d z e f g = ground arith

-- A value that stands at most once in the first slice stands in the intersection if it stands in
-- both slices, and in the difference if it stands in the first one only.
pub slice_difference-slice_intersect :
    (slice1 slice2 : List Bytes) (v : Bytes)
    → times v slice1 ≤ 1
    → (contains_string (slice_intersect slice1 slice2) v
        ≡ (contains_string slice1 v && contains_string slice2 v))
      × (contains_string (slice_difference slice1 slice2) v
          ≡ (contains_string slice1 v && not (contains_string slice2 v)))
unfolding slice_intersect slice_difference
slice_difference-slice_intersect slice1 slice2 v h =
    let inter : contains_string (slice_intersect slice1 slice2) v
        ≡ (contains_string slice1 v && contains_string slice2 v) =
      inside_both _ _ _ _ (contains_string-taken 1 slice1 slice2 v) (once v slice1 h) in
    (
      inter,
      inside_first _ _ _ _ _ (contains_string-taken 0 (slice_intersect slice1 slice2) slice1 v)
          (times-contains_string v (slice_intersect slice1 slice2)) inter,
    )
