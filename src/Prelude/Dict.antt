-- ===== src/Prelude/Dict.antt =====
-- Go maps as association lists, whose order is an order of `range`.
use Prim.Native.Nat.{ℕ}
use mathlib.Core.Path.{◌≡◌, refl, sym, ap, ◌∙◌}
use mathlib.Core.Logic.{inl, inr}
use mathlib.Core.Bool.{Bool, true, false}
use mathlib.Core.Option.{Option, none, some}
use mathlib.Core.List.{List, [], ◌∷◌}
use cloudreve.Prelude.Tests.{◌==◌, ==→≡, ==_refl, if◌then◌else◌, Bool-cases}
use cloudreve.Prelude.Strings.{Bytes, eqb, eqb_refl, eqb→≡}

pub record Eq (K : Type 0) : Type 0 where
  pub beq : K → K → Bool
  pub beq_refl : (a : K) → beq a a ≡ true
  pub beq→≡ : (a b : K) → beq a b ≡ true → a ≡ b

instance abbrev pub nat_eq : Eq ℕ
nat_eq = record { beq = ◌==◌; beq_refl = ==_refl; beq→≡ = ==→≡ }

instance abbrev pub bytes_eq : Eq Bytes
bytes_eq = record { beq = eqb; beq_refl = eqb_refl; beq→≡ = eqb→≡ }

abbrev pub Assoc : Type 0 → Type 0 → Type 0
Assoc K A = List (K × A)

module _ {K A : Type 0} ⦃e : Eq K⦄ where
  unfoldable pub find : K → Assoc K A → Option A
  find k [] = none
  find k ((k', a) ∷ m) = if e.beq k k' then some a else find k m

  unfoldable pub erase : K → Assoc K A → Assoc K A
  erase k [] = []
  erase k ((k', a) ∷ m) = let rest = erase k m in if e.beq k k' then rest else (k', a) ∷ rest

  unfoldable pub put : K → A → Assoc K A → Assoc K A
  unfolding erase
  put k a m = (k, a) ∷ erase k m

  pub find-remove_same : (k : K) (m : Assoc K A) → find k (erase k m) ≡ none
  unfolding find erase
  find-remove_same k [] = refl
  find-remove_same k ((k', a) ∷ m) = elim (Bool-cases (e.beq k k')) [
    | inl same ↦ rw (erase, same) (find-remove_same k m)
    | inr other ↦ rw (erase, other, find, other) (find-remove_same k m)
  ]

  pub find-remove_other :
      (k j : K) (m : Assoc K A) → e.beq k j ≡ false → find k (erase j m) ≡ find k m
  unfolding find erase
  find-remove_other k j [] h = refl
  find-remove_other k j ((k', a) ∷ m) h = elim (Bool-cases (e.beq j k')) [
    | inl same ↦
        let other : e.beq k k' ≡ false = ap (e.beq k) (sym (e.beq→≡ j k' same)) ∙ h in
        rw (erase, same, find, other) (find-remove_other k j m h)
    | inr different ↦ elim (Bool-cases (e.beq k k')) [
      | inl found ↦ rw (erase, different, find, found) refl
      | inr other ↦ rw (erase, different, find, other) (find-remove_other k j m h)
    ]
  ]

  pub find-put_same : (k : K) (a : A) (m : Assoc K A) → find k (put k a m) ≡ some a
  unfolding find put
  find-put_same k a m = rw (e.beq_refl k) refl

  pub find-put_other :
      (k j : K) (a : A) (m : Assoc K A) → e.beq k j ≡ false → find k (put j a m) ≡ find k m
  unfolding find put
  find-put_other k j a m h = rw h (find-remove_other k j m h)
