-- ===== src/Webdav/Lock/Members.antt =====
-- The members of a list of pointers, and what `erase` takes away.
use cloudreve.Prelude.{
  ℕ, ◌+◌, ◌≡◌, ◌≢◌, List, [], ◌∷◌, ◌⊎◌, inl, inr, ◌==◌, arith, length, ==→≡, Bool-cases,
}
use cloudreve.Webdav.Lock.State.{erase}

abbrev pub In : ℕ → List ℕ → Type 0
In n [] = ⊥
In n (x ∷ xs) = (x ≡ n) ⊎ In n xs

abbrev pub Distinct : List ℕ → Type 0
Distinct [] = Unit
Distinct (x ∷ xs) = (¬ In x xs) × Distinct xs

pub In-erase : (a n : ℕ) (xs : List ℕ) → In a (erase n xs) → In a xs
In-erase a n [] h = h
In-erase a n (x ∷ xs) h = ground (arith, In-erase a n xs)

pub In-erase_ne : (a n : ℕ) (xs : List ℕ) → In a xs → a ≢ n → In a (erase n xs)
In-erase_ne a n [] h ne = h
In-erase_ne a n (x ∷ xs) (inl e) ne = ground arith
In-erase_ne a n (x ∷ xs) (inr i) ne = elim (Bool-cases (x == n)) [
  | inl e ↦ rw e i
  | inr e ↦ rw e (inr (In-erase_ne a n xs i ne))
]

pub not-In-erase : (n : ℕ) (xs : List ℕ) → Distinct xs → ¬ In n (erase n xs)
not-In-erase n [] d = λ i. i
not-In-erase n (x ∷ xs) (out, d) = elim (Bool-cases (x == n)) [
  | inl e ↦ rw e (rw (==→≡ x n e) at out)
  | inr e ↦ rw e λ i. ground (arith, not-In-erase n xs d)
]

pub Distinct-erase : (n : ℕ) (xs : List ℕ) → Distinct xs → Distinct (erase n xs)
Distinct-erase n [] d = d
Distinct-erase n (x ∷ xs) (out, d) = elim (Bool-cases (x == n)) [
  | inl e ↦ rw e d
  | inr e ↦ rw e (λ i. out (In-erase x n xs i), Distinct-erase n xs d)
]

pub length-erase : (n : ℕ) (xs : List ℕ) → In n xs → length (erase n xs) + 1 ≡ length xs
length-erase n [] i = absurd i
length-erase n (x ∷ xs) i = ground (arith, length-erase n xs)
