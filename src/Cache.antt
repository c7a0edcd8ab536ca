-- ===== src/Cache.antt =====
-- pkg/cache/memo.go: the store of values in memory, with a time to live for each. The map is a
-- function, and the clock an argument.
pub mod Expiry
pub mod History
mod Tests
use cloudreve.Prelude.{
  ℕ, zero, suc, ◌+◌, ◌≡◌, refl, Bool, true, false, ◌&&◌, Option, none, some, List, [], ◌∷◌, ◌++◌, ℤ,
  pos, negsuc, u64, to_uint64, to_int64, less, Bytes, eqb, if◌then◌else◌,
}

-- What the map holds: itemWithTTL, or a value that Sets has put there as it is.
pub data Stored (V : Type 0) : Type 0 where
  item_with_ttl : (expires : ℤ) → V → Stored V
  bare : V → Stored V

abbrev pub Store : Type 0 → Type 0
Store V = Bytes → Option (Stored V)

abbrev pub new_memo_store : {V : Type 0} → Store V
new_memo_store key = none

unfoldable pub new_item : {V : Type 0} → ℤ → V → ℤ → Stored V
new_item now value expires =
    item_with_ttl
      (if less (pos 0) expires then to_int64 (to_uint64 now + to_uint64 expires) else expires) value

abbrev pub expired : ℤ → ℤ → Bool
expired now expires = less (pos 0) expires && less expires now

unfoldable pub get_value : {V : Type 0} → ℤ → Option (Stored V) → Option V
get_value now none = none
get_value now (some (bare v)) = some v
get_value now (some (item_with_ttl expires v)) = if expired now expires then none else some v

abbrev pub store_at : {V : Type 0} → Bytes → Stored V → Store V → Store V
store_at key v store k = if eqb k key then some v else store k

abbrev pub delete_at : {V : Type 0} → Bytes → Store V → Store V
delete_at key store k = if eqb k key then none else store k

unfoldable pub set : {V : Type 0} → ℤ → Bytes → V → ℤ → Store V → Store V
set now key value ttl store = store_at key (new_item now value ttl) store

unfoldable pub get : {V : Type 0} → ℤ → Bytes → Store V → Option V
get now key store = get_value now (store key)

-- The values found, by their key, and the keys not found.
unfoldable pub gets :
    {V : Type 0} → ℤ → List Bytes → Bytes → Store V → List (Bytes × V) × List Bytes
unfolding get_value
gets now [] prefix store = ([], [])
gets now (key ∷ keys) prefix store =
    let rest = gets now keys prefix store in
    elim (get_value now (store (prefix ++ key))) [
      | some v ↦ ((key, v) ∷ rest.0, rest.1)
      | none ↦ (rest.0, key ∷ rest.1)
    ]

unfoldable pub sets : {V : Type 0} → List (Bytes × V) → Bytes → Store V → Store V
sets [] prefix store = store
sets ((key, v) ∷ values) prefix store = sets values prefix (store_at (prefix ++ key) (bare v) store)

unfoldable pub delete : {V : Type 0} → List Bytes → Bytes → Store V → Store V
delete [] prefix store = store
delete (key ∷ keys) prefix store = delete keys prefix (delete_at (prefix ++ key) store)

-- What GarbageCollect's Range leaves of an entry.
unfoldable pub after_collect : {V : Type 0} → ℤ → Option (Stored V) → Option (Stored V)
after_collect now none = none
after_collect now (some (bare v)) = some (bare v)
after_collect now (some (item_with_ttl expires v)) =
    if expired now expires then none else some (item_with_ttl expires v)

unfoldable pub garbage_collect : {V : Type 0} → ℤ → Store V → Store V
unfolding after_collect
garbage_collect now store key = after_collect now (store key)
