-- ===== src/Cache/Expiry.antt =====
-- How long a value that Set has put into the store is found.
use cloudreve.Prelude.{
  ℕ, zero, suc, ◌+◌, ◌%◌, ◌^◌, ◌<◌, ◌≡◌, refl, true, ◌&&◌, none, some, pos, Bytes, eqb,
  if◌then◌else◌, inl, inr, Bool-cases, arith, ltb, u64, to_int64, to_uint64, to_int64_eq,
}
use cloudreve.Cache.{Store, new_item, get_value, set, get}

-- The sum that newItem computes.
deadline :
    (now ttl : ℕ)
    → now + ttl < 2 ^ 63
    → to_int64 (to_uint64 (pos now) + to_uint64 (pos ttl)) ≡ pos (now + ttl)
deadline now ttl h = to_int64_eq (now % u64 + ttl % u64) (now + ttl) (omega arith) h

get_value-new_item :
    {V : Type 0} (now ttl later : ℕ) (v : V)
    → now + ttl < 2 ^ 63
    → get_value (pos later) (some (new_item (pos now) v (pos ttl)))
      ≡ (if ltb 0 ttl && ltb (now + ttl) later then none else some v)
unfolding get_value new_item
get_value-new_item now zero later v h = refl
get_value-new_item now (suc ttl) later v h =
    let positive : ltb 0 (suc ttl) ≡ true = ground arith in
    let later_than_0 : ltb 0 (now + suc ttl) ≡ true = ground arith in
    rw (deadline now (suc ttl) h, positive, later_than_0) refl

-- A value that Set has stored with a positive ttl is found until ttl seconds later, one with ttl 0
-- for ever, and the values under the other keys stay as they are.
pub get-set :
    {V : Type 0} (now ttl later : ℕ) (key other : Bytes) (v : V) (store : Store V)
    → now + ttl < 2 ^ 63
    → get (pos later) other (set (pos now) key v (pos ttl) store) ≡ (
        if eqb other key
        then (if ltb 0 ttl && ltb (now + ttl) later then none else some v)
        else get (pos later) other store)
unfolding get set
get-set now ttl later key other v store h = elim (Bool-cases (eqb other key)) [
  | inl same ↦ rw same (get_value-new_item now ttl later v h)
  | inr different ↦ rw different refl
]
