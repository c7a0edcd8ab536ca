-- ===== src/Cache/History.antt =====
-- What the store answers after a history of calls, with the collections of garbage or without.
use cloudreve.Prelude.{
  ◌≡◌, refl, ◌∙◌, true, false, Option, none, some, List, [], ◌∷◌, ◌++◌, ℤ, less, Bytes, eqb, inl,
  inr, Bool-cases, arith,
}
use cloudreve.Cache.{
  store_at, delete_at, Stored, item_with_ttl, bare, Store, new_memo_store, new_item, expired,
  get_value, set, get, sets, delete, after_collect, garbage_collect,
}

pub data Call (V : Type 0) : Type 0 where
  call_set : Bytes → V → ℤ → Call V
  call_sets : List (Bytes × V) → Bytes → Call V
  call_delete : List Bytes → Bytes → Call V
  call_garbage_collect : Call V

-- A call at a time.
unfoldable pub step : {V : Type 0} → ℤ → Call V → Store V → Store V
step now (call_set key v ttl) store = set now key v ttl store
step now (call_sets values prefix) store = sets values prefix store
step now (call_delete keys prefix) store = delete keys prefix store
step now call_garbage_collect store = garbage_collect now store

unfoldable pub run : {V : Type 0} → List (ℤ × Call V) → Store V → Store V
run [] store = store
run ((now, call) ∷ calls) store = run calls (step now call store)

-- The history without its collections.
unfoldable pub kept : {V : Type 0} → List (ℤ × Call V) → List (ℤ × Call V)
kept [] = []
kept ((now, call_garbage_collect) ∷ calls) = kept calls
kept ((now, call_set key v ttl) ∷ calls) = (now, call_set key v ttl) ∷ kept calls
kept ((now, call_sets values prefix) ∷ calls) = (now, call_sets values prefix) ∷ kept calls
kept ((now, call_delete keys prefix) ∷ calls) = (now, call_delete keys prefix) ∷ kept calls

-- No call is later than `now`.
unfoldable pub NoneAfter : {V : Type 0} → ℤ → List (ℤ × Call V) → Type 0
NoneAfter now [] = Unit
NoneAfter now ((t, call) ∷ calls) = (less now t ≡ false) × NoneAfter now calls

-- The two stores answer alike at `now`.
abbrev Alike : {V : Type 0} → ℤ → Store V → Store V → Type 0
Alike now s t = (key : Bytes) → get_value now (s key) ≡ get_value now (t key)

expired_later :
    (now t expires : ℤ) → less now t ≡ false → expired t expires ≡ true → expired now expires ≡ true
expired_later now t expires h over = ground arith

collected :
    {V : Type 0} (now t : ℤ)
    → less now t ≡ false
    → (x : Option (Stored V)) → get_value now (after_collect t x) ≡ get_value now x
unfolding get_value after_collect
collected now t h none = refl
collected now t h (some (bare v)) = refl
collected now t h (some (item_with_ttl expires v)) = elim (Bool-cases (expired t expires)) [
  | inl over ↦
      let too : expired now expires ≡ true = expired_later now t expires h over in
      rw (over, too) refl
  | inr not_yet ↦ rw not_yet refl
]

module _ {V : Type 0} (now : ℤ) where
  store_at-Alike :
      (key : Bytes) (x : Stored V) (s t : Store V)
      → Alike now s t
      → Alike now (store_at key x s) (store_at key x t)
  store_at-Alike key x s t alike k = elim (Bool-cases (eqb k key)) [
    | inl e ↦ rw e refl
    | inr e ↦ rw e (alike k)
  ]

  delete_at-Alike :
      (key : Bytes) (s t : Store V) → Alike now s t → Alike now (delete_at key s) (delete_at key t)
  delete_at-Alike key s t alike k = elim (Bool-cases (eqb k key)) [
    | inl e ↦ rw e refl
    | inr e ↦ rw e (alike k)
  ]

  sets-Alike :
      (values : List (Bytes × V)) (prefix : Bytes) (s t : Store V)
      → Alike now s t
      → Alike now (sets values prefix s) (sets values prefix t)
  unfolding sets
  sets-Alike [] prefix s t alike = alike
  sets-Alike ((key, v) ∷ values) prefix s t alike =
      sets-Alike values prefix _ _ (store_at-Alike (prefix ++ key) (bare v) s t alike)

  delete-Alike :
      (keys : List Bytes) (prefix : Bytes) (s t : Store V)
      → Alike now s t
      → Alike now (delete keys prefix s) (delete keys prefix t)
  unfolding delete
  delete-Alike [] prefix s t alike = alike
  delete-Alike (key ∷ keys) prefix s t alike =
      delete-Alike keys prefix _ _ (delete_at-Alike (prefix ++ key) s t alike)

  collect-Alike :
      (at : ℤ)
      → less now at ≡ false
      → (s t : Store V) → Alike now s t
      → Alike now (garbage_collect at s) t
  unfolding garbage_collect
  collect-Alike at h s t alike k = collected now at h (s k) ∙ alike k

  run-Alike :
      (calls : List (ℤ × Call V)) (s t : Store V)
      → NoneAfter now calls
      → Alike now s t
      → Alike now (run calls s) (run (kept calls) t)
  unfolding run kept NoneAfter step set
  run-Alike [] s t h alike = alike
  run-Alike ((at, call_set key v ttl) ∷ calls) s t h alike =
      run-Alike calls _ _ h.1 (store_at-Alike key (new_item at v ttl) s t alike)
  run-Alike ((at, call_sets values prefix) ∷ calls) s t h alike =
      run-Alike calls _ _ h.1 (sets-Alike values prefix s t alike)
  run-Alike ((at, call_delete keys prefix) ∷ calls) s t h alike =
      run-Alike calls _ _ h.1 (delete-Alike keys prefix s t alike)
  run-Alike ((at, call_garbage_collect) ∷ calls) s t h alike =
      run-Alike calls _ _ h.1 (collect-Alike at h.0 s t alike)

-- Collecting garbage changes no answer: after a history of calls none of which is later than `now`,
-- Get at `now` answers for every key as if GarbageCollect had never run.
pub get-run :
    {V : Type 0} (now : ℤ) (calls : List (ℤ × Call V)) (key : Bytes)
    → NoneAfter now calls
    → get now key (run calls new_memo_store) ≡ get now key (run (kept calls) new_memo_store)
unfolding get
get-run now calls key h = run-Alike now calls new_memo_store new_memo_store h (λ k. refl) key
