-- ===== src/Slices/Tests.antt =====
-- Slices of one-letter strings.
use cloudreve.Prelude.{◌≡◌, refl, true, not, ◌&&◌, List, [], ◌∷◌, Bytes, codes, eqb, arith}
use cloudreve.Slices.{
  contains_uint, contains_string, times, taken, slice_intersect, slice_difference,
}
use cloudreve.Slices.Sets.{slice_difference-slice_intersect}

abbrev left : List Bytes
left = codes "a" ∷ codes "b" ∷ []

abbrev right : List Bytes
right = codes "b" ∷ codes "c" ∷ []

third : contains_uint (1 ∷ 2 ∷ 3 ∷ []) 3 ≡ true
unfolding contains_uint
third = refl

without_b : slice_difference left right ≡ codes "a" ∷ []
unfolding slice_difference slice_intersect taken times eqb
without_b = refl

-- A value that stands twice in the first slice is not found.
twice : slice_intersect (codes "b" ∷ left) right ≡ []
unfolding slice_intersect taken times eqb
twice = refl

slice_difference-slice_intersect_example :
    (contains_string (slice_intersect left right) (codes "b")
      ≡ (contains_string left (codes "b") && contains_string right (codes "b")))
    × (contains_string (slice_difference left right) (codes "b")
        ≡ (contains_string left (codes "b") && not (contains_string right (codes "b"))))
unfolding times eqb
slice_difference-slice_intersect_example =
    slice_difference-slice_intersect left right (codes "b") (omega arith)
