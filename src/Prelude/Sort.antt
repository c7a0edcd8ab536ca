-- ===== src/Prelude/Sort.antt =====
-- The order of Go strings and `sort.Strings`, which does not depend on the order that it is given.
use mathlib.Core.Path.{◌≡◌, refl, sym, ap, ◌∙◌}
use mathlib.Core.Logic.{inl, inr}
use mathlib.Core.Bool.{Bool, true, false}
use mathlib.Core.List.{List, [], ◌∷◌}
use mathlib.Core.List.{Permᴰ}
use native.Mathlib.Omega.{arith}
use cloudreve.Prelude.Tests.{◌==◌, ltb, if◌then◌else◌, Bool-cases}
use cloudreve.Prelude.Strings.{Bytes}

-- `s <= t`
unfoldable pub le_string : Bytes → Bytes → Bool
le_string [] t = true
le_string (x ∷ s) [] = false
le_string (x ∷ s) (y ∷ t) = let rest = le_string s t in if x == y then rest else ltb x y

le_string_total : (s t : Bytes) → le_string s t ≡ false → le_string t s ≡ true
unfolding le_string
le_string_total [] t h = let no_way : ⊥ = cc in elim no_way [ ]
le_string_total (x ∷ s) [] h = refl
le_string_total (x ∷ s) (y ∷ t) h = let rest = le_string_total s t in ground (arith, h, rest)

le_string_antisym : (s t : Bytes) → le_string s t ≡ true → le_string t s ≡ true → s ≡ t
unfolding le_string
le_string_antisym [] [] h k = refl
le_string_antisym [] (y ∷ t) h k = let no_way : ⊥ = cc in elim no_way [ ]
le_string_antisym (x ∷ s) [] h k = let no_way : ⊥ = cc in elim no_way [ ]
le_string_antisym (x ∷ s) (y ∷ t) h k =
    let rest = le_string_antisym s t in ground (arith, h, k, rest)

le_string_trans :
    (s t u : Bytes) → le_string s t ≡ true → le_string t u ≡ true → le_string s u ≡ true
unfolding le_string
le_string_trans [] t u h k = refl
le_string_trans (x ∷ s) [] u h k = let no_way : ⊥ = cc in elim no_way [ ]
le_string_trans (x ∷ s) (y ∷ t) [] h k = let no_way : ⊥ = cc in elim no_way [ ]
le_string_trans (x ∷ s) (y ∷ t) (z ∷ u) h k =
    let rest = le_string_trans s t u in ground (arith, h, k, rest)

unfoldable pub insert_string : Bytes → List Bytes → List Bytes
insert_string s [] = s ∷ []
insert_string s (t ∷ ts) =
    let rest = insert_string s ts in if le_string s t then s ∷ t ∷ ts else t ∷ rest

unfoldable pub sort_strings : List Bytes → List Bytes
unfolding insert_string
sort_strings [] = []
sort_strings (s ∷ ss) = insert_string s (sort_strings ss)

-- Strings that differ, the first before the second.
insert_string_before :
    (s t : Bytes) (us : List Bytes)
    → le_string s t ≡ true
    → le_string t s ≡ false
    → insert_string s (insert_string t us) ≡ insert_string t (insert_string s us)
unfolding insert_string
insert_string_before s t [] a b = rw (a, b) refl
insert_string_before s t (u ∷ us) a b = elim (Bool-cases (le_string t u)) [
  | inl d ↦ let c = le_string_trans s t u a d in rw (d, c, a, b, d) refl
  | inr d ↦ elim (Bool-cases (le_string s u)) [
    | inl c ↦ rw (d, c, b, d) refl
    | inr c ↦ rw (d, c, d) (ap (◌∷◌ u) (insert_string_before s t us a b))
  ]
]

insert_string_comm :
    (s t : Bytes) (us : List Bytes)
    → insert_string s (insert_string t us) ≡ insert_string t (insert_string s us)
insert_string_comm s t us = elim (Bool-cases (le_string s t)) [
  | inr a ↦ sym (insert_string_before t s us (le_string_total s t a) a)
  | inl a ↦ elim (Bool-cases (le_string t s)) [
    | inl b ↦ let e = le_string_antisym s t a b in rw e refl
    | inr b ↦ insert_string_before s t us a b
  ]
]

pub sort_strings-perm : {xs ys : List Bytes} → Permᴰ xs ys → sort_strings xs ≡ sort_strings ys
unfolding sort_strings
sort_strings-perm Permᴰ.nil = refl
sort_strings-perm (Permᴰ.cons {b = b} e d) = rw (e, sort_strings-perm d) refl
sort_strings-perm (Permᴰ.swap {a' = a'} {b' = b'} {l = l} e f) =
    rw (e, f) (insert_string_comm b' a' (sort_strings l))
sort_strings-perm (Permᴰ.trans d d') = sort_strings-perm d ∙ sort_strings-perm d'
