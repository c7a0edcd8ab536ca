-- ===== src/Quota/Within.antt =====
-- The storage in memory, that in the database and the limit of the group.
use cloudreve.Prelude.{
  ℕ, ◌+◌, ◌-◌, ◌%◌, ◌^◌, ◌≤◌, ◌<◌, ◌≡◌, refl, ◌∙◌, ◌==◌, Option, none, some, List, [], ◌∷◌, leb,
  u64, Bool-cases, inl, inr, arith,
}
use cloudreve.Quota.{
  User, Statement, storage_minus, storage_plus, storage_is, Updated, get_remaining_capacity,
  deduction_storage, increase_storage,
}

pub data Change : Type 0 where
  deduct : ℕ → Change
  increase : ℕ → Change

unfoldable pub change : Change → User → Updated
change (deduct size) u = deduction_storage size u
change (increase size) u = increase_storage size u

-- What the database makes of a statement, if there is one.
abbrev pub sent : (Statement → ℕ → ℕ) → Option Statement → ℕ → ℕ
sent execute none column = column
sent execute (some s) column = execute s column

-- The user and the column after some changes.
unfoldable pub changes : (Statement → ℕ → ℕ) → List Change → User → ℕ → User × ℕ
changes execute [] u column = (u, column)
changes execute (c ∷ cs) u column =
    let r = change c u in changes execute cs r.user (sent execute r.statement column)

-- A database that does what its statements say, where the result is a number of 64 bits.
pub record IsDatabase (execute : Statement → ℕ → ℕ) : Type 0 where
  pub minus : (n column : ℕ) → n ≤ column → execute (storage_minus n) column ≡ column - n
  pub plus : (n column : ℕ) → column + n < 2 ^ 64 → execute (storage_plus n) column ≡ column + n
  pub is : (n column : ℕ) → execute (storage_is n) column ≡ n

-- The column says what the user in memory says, and the limit is kept.
abbrev pub Within : User → ℕ → Type 0
Within u column = (column ≡ u.storage) × (u.storage ≤ u.max_storage) × (u.max_storage < 2 ^ 64)

module _ (execute : Statement → ℕ → ℕ) (database : IsDatabase execute) where
  deduction_storage-Within :
      (size : ℕ) (u : User) (column : ℕ)
      → Within u column
      → let r = deduction_storage size u in
        Within r.user (sent execute r.statement column) × (r.user.max_storage ≡ u.max_storage)
  unfolding deduction_storage
  deduction_storage-Within size u column h = elim (Bool-cases (size == 0)) [
    | inl e ↦ rw e (h, refl)
    | inr e ↦ elim (Bool-cases (leb size u.storage)) [
      | inl f ↦
          let le : size ≤ column = ground arith in
          let done = database.minus size column le in
          rw (e, f, done) ((omega arith, omega arith, omega arith), refl)
      | inr f ↦
          let done = database.is 0 column in
          rw (e, f, done) ((refl, omega arith, omega arith), refl)
    ]
  ]

  increase_storage-Within :
      (size : ℕ) (u : User) (column : ℕ)
      → Within u column
      → let r = increase_storage size u in
        Within r.user (sent execute r.statement column) × (r.user.max_storage ≡ u.max_storage)
  unfolding increase_storage get_remaining_capacity
  increase_storage-Within size u column h = elim (Bool-cases (size == 0)) [
    | inl e ↦ rw e (h, refl)
    | inr e ↦ elim (Bool-cases (leb size (get_remaining_capacity u))) [
      | inl f ↦
          let room : u.storage + size ≤ u.max_storage = ground arith in
          let done = database.plus size column (omega arith) in
          let wrap : (u.storage + size) % u64 ≡ u.storage + size = omega arith in
          rw (e, f, done, wrap) ((omega arith, omega arith, omega arith), refl)
      | inr f ↦ rw (e, f) (h, refl)
    ]
  ]

-- With a database that does what its statements say, a user whose storage is the column's and within
-- the limit of the group stays so by any sequence of DeductionStorage and IncreaseStorage, and the
-- limit is the same.
pub changes-Within :
    (execute : Statement → ℕ → ℕ) (cs : List Change) (u : User) (column : ℕ)
    → IsDatabase execute
    → Within u column
    → let r = changes execute cs u column in Within r.0 r.1 × (r.0.max_storage ≡ u.max_storage)
unfolding changes change
changes-Within execute [] u column database h = (h, refl)
changes-Within execute (deduct size ∷ cs) u column database h =
    let one = deduction_storage-Within execute database size u column h in
    let rest = changes-Within execute cs _ _ database one.0 in (rest.0, rest.1 ∙ one.1)
changes-Within execute (increase size ∷ cs) u column database h =
    let one = increase_storage-Within execute database size u column h in
    let rest = changes-Within execute cs _ _ database one.0 in (rest.0, rest.1 ∙ one.1)
