-- ===== src/Prelude/Int.antt =====
-- Signed numbers, for Go's `int`, `int64` and `time.Duration` where a sign matters.
use Prim.Native.Nat.{ℕ, zero, suc, ◌-◌, ◌%◌, ◌^◌, ◌<◌}
use mathlib.Core.Path.{◌≡◌, refl}
use native.Mathlib.Omega.{arith}
use cloudreve.Prelude.Tests.{ltb, ◌==◌, if◌then◌else◌, lt→ltb}
use mathlib.Core.Bool.{Bool, true, false}

-- `negsuc n` is -(n + 1).
pub data ℤ : Type 0 where
  pos : ℕ → ℤ
  negsuc : ℕ → ℤ

-- `0 <= n`
abbrev pub nonneg : ℤ → Bool
nonneg (pos n) = true
nonneg (negsuc n) = false

-- `n++` and `n--`
abbrev pub suc_ℤ : ℤ → ℤ
suc_ℤ (pos n) = pos (suc n)
suc_ℤ (negsuc zero) = pos 0
suc_ℤ (negsuc (suc n)) = negsuc n

abbrev pub pred_ℤ : ℤ → ℤ
pred_ℤ (pos zero) = negsuc 0
pred_ℤ (pos (suc n)) = pos n
pred_ℤ (negsuc n) = negsuc (suc n)

abbrev pub u64 : ℕ
u64 = 2 ^ 64

-- `uint64(i)` and `int64(x)`
abbrev pub to_uint64 : ℤ → ℕ
to_uint64 (pos n) = n % u64
to_uint64 (negsuc n) = u64 - 1 - n % u64

abbrev pub to_int64 : ℕ → ℤ
to_int64 x = if ltb (x % u64) (2 ^ 63) then pos (x % u64) else negsuc (u64 - 1 - x % u64)

abbrev pub eq_ℤ : ℤ → ℤ → Bool
eq_ℤ (pos a) (pos b) = a == b
eq_ℤ (negsuc a) (negsuc b) = a == b
eq_ℤ _ _ = false

-- `a < b`
abbrev pub less : ℤ → ℤ → Bool
less (pos a) (pos b) = ltb a b
less (pos a) (negsuc b) = false
less (negsuc a) (pos b) = true
less (negsuc a) (negsuc b) = ltb b a

pub to_int64_small : (x : ℕ) → x < 2 ^ 63 → to_int64 x ≡ pos x
to_int64_small x h = let e : x % u64 ≡ x = omega arith in rw e (rw (lt→ltb x (2 ^ 63) h) refl)

pub to_int64_eq : (x y : ℕ) → x ≡ y → y < 2 ^ 63 → to_int64 x ≡ pos y
to_int64_eq x y e h = rw e (to_int64_small y h)
