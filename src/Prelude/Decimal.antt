-- ===== src/Prelude/Decimal.antt =====
-- Decimal print and its value.
use Prim.Native.Nat.{ℕ, zero, suc, ◌+◌, ◌-◌, ◌*◌, ◌/◌, ◌%◌, ◌^◌, ◌<◌}
use mathlib.Core.Path.{◌≡◌, sym, ap, ◌∙◌}
use mathlib.Core.Logic.{◌≢◌, inl, inr}
use mathlib.Core.List.{[], ◌∷◌, ◌++◌, foldl, foldl-append}
use native.Mathlib.Nat.{pow-suc}
use native.Mathlib.Omega.{arith}
use cloudreve.Prelude.Tests.{◌==◌, if◌then◌else◌, Bool-cases, ==→≡}
use cloudreve.Prelude.Strings.{Bytes, decimal, format_uint}

-- The number that the digits of a text stand for.
pub decimal_value : Bytes → ℕ
decimal_value = foldl (λ v c. v * 10 + (c - b'0')) 0

decimal_value-snoc :
    (s : Bytes) (d : ℕ) → decimal_value (s ++ (b'0' + d) ∷ []) ≡ decimal_value s * 10 + d
unfolding decimal_value
decimal_value-snoc s d = rw foldl-append (omega arith)

pub decimal_value-decimal : (fuel n : ℕ) → n < 10 ^ fuel → decimal_value (decimal fuel n) ≡ n
unfolding decimal
decimal_value-decimal zero n h = unfold decimal_value in (omega arith)
decimal_value-decimal (suc fuel) n h =
    let lt : n / 10 < 10 ^ fuel = omega (arith, pow-suc 10 fuel) in
    elim (Bool-cases (n / 10 == 0)) [
      | inl e ↦
          rw (e, decimal_value-snoc [] (n % 10))
            (unfold decimal_value in (omega (arith, ==→≡ (n / 10) 0 e)))
      | inr e ↦
          rw (e, decimal_value-snoc (decimal fuel (n / 10)) (n % 10))
            (omega (arith, decimal_value-decimal fuel (n / 10) lt))
    ]

pub format_uint-injective :
    (a b : ℕ) → a < 2 ^ 64 → b < 2 ^ 64 → format_uint a ≡ format_uint b → a ≡ b
unfolding format_uint
format_uint-injective a b ha hb e =
    sym (decimal_value-decimal 20 a (omega arith))
    ∙ ap decimal_value e
    ∙ decimal_value-decimal 20 b (omega arith)

snoc-ne-nil : (s : Bytes) (c : ℕ) → s ++ c ∷ [] ≢ []
snoc-ne-nil [] c e = cc
snoc-ne-nil (x ∷ s) c e = cc

pub format_uint-ne-nil : (n : ℕ) → format_uint n ≢ []
unfolding format_uint decimal
format_uint-ne-nil n = snoc-ne-nil (if n / 10 == 0 then [] else decimal 19 (n / 10)) (b'0' + n % 10)
