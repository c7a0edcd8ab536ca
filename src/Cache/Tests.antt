-- ===== src/Cache/Tests.antt =====
-- The store on small values: numbers under one-letter keys.
use cloudreve.Prelude.{
  ℕ, ◌≡◌, refl, none, some, List, [], ◌∷◌, ℤ, pos, Bytes, eqb, arith, if◌then◌else◌, ltb, ◌&&◌, ◌+◌,
}
use cloudreve.Cache.{new_memo_store, new_item, get, gets, set, sets, get_value}
use cloudreve.Cache.Expiry.{get-set}
use cloudreve.Cache.History.{Call, call_set, call_garbage_collect, run, kept, NoneAfter, get-run}

abbrev a : Bytes
a = 97 ∷ []

abbrev b : Bytes
b = 98 ∷ []

found_and_missing :
    gets {V = ℕ}
      (pos 5)
      (a ∷ b ∷ [])
      []
      (set (pos 1) b 2 (pos 3) (set (pos 1) a 1 (pos 4) new_memo_store))
    ≡ ((a, 1) ∷ [], b ∷ [])
unfolding gets set get_value new_item eqb
found_and_missing = refl

without_ttl :
    get {V = ℕ} (pos 1000) a (sets ((b, 7) ∷ []) [] (sets ((a, 6) ∷ []) [] new_memo_store)) ≡ some 6
unfolding get sets get_value eqb
without_ttl = refl

get-set_example : get {V = ℕ} (pos 12) a (set (pos 10) a 1 (pos 5) new_memo_store) ≡ (
    if eqb a a
    then (if ltb 0 5 && ltb (10 + 5) 12 then none else some 1)
    else get (pos 12) a new_memo_store)
get-set_example = get-set 10 5 12 a a 1 new_memo_store (omega arith)

abbrev history : List (ℤ × Call ℕ)
history =
    (pos 1, call_set a 1 (pos 2))
    ∷ (pos 5, call_garbage_collect)
    ∷ (pos 6, call_set b 2 (pos 9))
    ∷ []

get-run_example :
    get (pos 7) b (run history new_memo_store) ≡ get (pos 7) b (run (kept history) new_memo_store)
unfolding NoneAfter
get-run_example = get-run (pos 7) history b (refl, (refl, (refl, tt)))
