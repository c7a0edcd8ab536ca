-- ===== src/Quota.antt =====
-- models/user.go: the storage that a user has used, in memory and as the statements that the database
-- is sent. The database is a parameter of what uses these.
pub mod Within
mod Tests
use cloudreve.Prelude.{
  ℕ, ◌+◌, ◌-◌, ◌%◌, ◌==◌, Bool, true, false, Option, none, some, leb, u64, if◌then◌else◌,
}

-- What is read of a user and of its group.
pub record User : Type 0 where
  pub storage : ℕ
  pub max_storage : ℕ

-- The update of the column `storage`.
pub data Statement : Type 0 where
  storage_minus : ℕ → Statement
  storage_plus : ℕ → Statement
  storage_is : ℕ → Statement

-- The answer, the user and the statement sent.
pub record Updated : Type 0 where
  pub ok : Bool
  pub user : User
  pub statement : Option Statement

unfoldable pub get_remaining_capacity : User → ℕ
get_remaining_capacity u = if leb u.max_storage u.storage then 0 else u.max_storage - u.storage

unfoldable pub deduction_storage : ℕ → User → Updated
deduction_storage size u =
    if size == 0
    then record { ok = true; user = u; statement = none }
    else (if leb size u.storage
        then record {
          ok = true;
          user = record u { storage = u.storage - size };
          statement = some (storage_minus size);
        }
        else record {
          ok = false;
          user = record u { storage = 0 };
          statement = some (storage_is 0);
        })

unfoldable pub increase_storage : ℕ → User → Updated
unfolding get_remaining_capacity
increase_storage size u =
    if size == 0
    then record { ok = true; user = u; statement = none }
    else (if leb size (get_remaining_capacity u)
        then record {
          ok = true;
          user = record u { storage = (u.storage + size) % u64 };
          statement = some (storage_plus size);
        }
        else record { ok = false; user = u; statement = none })

unfoldable pub increase_storage_without_check : ℕ → User → User × Option Statement
increase_storage_without_check size u =
    if size == 0
    then (u, none)
    else (record u { storage = (u.storage + size) % u64 }, some (storage_plus size))
