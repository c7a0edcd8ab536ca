-- ===== src/Webdav/Lock/System.antt =====
-- The life of a lock system: any sequence of calls of its methods. A Confirm that succeeds hands out
-- a release function, which its caller calls once, at any later time.
use mathlib.Core.Option
use cloudreve.Prelude.{ℕ, zero, suc, Option, none, some, List, [], ◌∷◌, ℤ, Bytes, ◌>>=◌}
use cloudreve.Webdav.Lock.State.{LockDetails, MemLs, Condition, Outcome, ok, failed, new_mem_ls}
use cloudreve.Webdav.Lock.Methods.{create_lock, refresh, unlock, confirm, release, Held}

pub data Call : Type 0 where
  create : ℕ → LockDetails → Call
  refresh_lock : ℕ → Bytes → ℤ → Call
  unlock_lock : ℕ → Bytes → Call
  confirm_locks : ℕ → Bytes → Bytes → List Condition → Call
  -- the caller of the Confirm at this place in the list of those not yet released
  release_at : ℕ → Call

pub record System : Type 0 where
  pub ls : MemLs
  pub out : List Held

-- The release function at a place, and the others.
unfoldable pub take_out : ℕ → List Held → Option (Held × List Held)
take_out i [] = none
take_out zero (h ∷ hs) = some (h, hs)
take_out (suc i) (h ∷ hs) = Option.map (λ r. (r.0, h ∷ r.1)) (take_out i hs)

abbrev keep_held : Outcome Held → List Held → List Held
keep_held (ok h) hs = h ∷ hs
keep_held (failed e) hs = hs

-- One call; `none` is a panic. There is no release function at a place past the end.
unfoldable pub apply : Call → System → Option System
apply (create now details) s = do (_, m) ← create_lock now details s.ls; some (record s { ls = m })
apply (refresh_lock now token duration) s = do
  (_, m) ← refresh now token duration s.ls
  some (record s { ls = m })
apply (unlock_lock now token) s = do (_, m) ← unlock now token s.ls; some (record s { ls = m })
apply (confirm_locks now name0 name1 conditions) s = do
  (r, m) ← confirm now name0 name1 conditions s.ls
  some (record { ls = m; out = keep_held r s.out })
apply (release_at i) s = elim (take_out i s.out) [
  | none ↦ some s
  | some (h, rest) ↦ do m ← release h s.ls; some (record { ls = m; out = rest })
]

unfoldable pub run : List Call → System → Option System
unfolding apply
run [] s = some s
run (c ∷ calls) s = apply c s >>= run calls

abbrev pub start : ℕ → System
start unix = record { ls = new_mem_ls unix; out = [] }
