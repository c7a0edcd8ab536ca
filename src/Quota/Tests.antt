-- ===== src/Quota/Tests.antt =====
-- A user with a limit of 10 bytes.
use cloudreve.Prelude.{ℕ, ◌+◌, ◌-◌, ◌≡◌, refl, false, List, [], ◌∷◌, arith}
use cloudreve.Quota.{
  User, Statement, storage_minus, storage_plus, storage_is, get_remaining_capacity,
  increase_storage, increase_storage_without_check,
}
use cloudreve.Quota.Within.{Change, deduct, increase, changes, IsDatabase, Within, changes-Within}

abbrev alice : User
alice = record { storage = 4; max_storage = 10 }

full : (increase_storage 7 alice).ok ≡ false
unfolding increase_storage get_remaining_capacity
full = refl

unchecked : (increase_storage_without_check 7 alice).0.storage ≡ 11
unfolding increase_storage_without_check
unchecked = refl

abbrev column_after : Statement → ℕ → ℕ
column_after (storage_minus n) column = column - n
column_after (storage_plus n) column = column + n
column_after (storage_is n) column = n

column_after-IsDatabase : IsDatabase column_after
column_after-IsDatabase = record { minus = λ n c h. refl; plus = λ n c h. refl; is = λ n c. refl }

abbrev some_changes : List Change
some_changes = increase 5 ∷ increase 2 ∷ deduct 3 ∷ deduct 20 ∷ []

changes-Within_example :
    let r = changes column_after some_changes alice 4 in Within r.0 r.1 × (r.0.max_storage ≡ 10)
changes-Within_example =
    changes-Within column_after some_changes alice 4 column_after-IsDatabase
      (refl, omega arith, omega arith)
