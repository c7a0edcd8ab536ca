-- ===== src/Prelude/Strings.antt =====
-- Go strings as lists of bytes.
use Prim.Native.Nat.{ℕ, zero, suc, ◌+◌, ◌/◌, ◌%◌}
use Prim.Native.Char.{code}
use Prim.Native.String.{String}
use mathlib.Core.Path.{◌≡◌, refl}
use mathlib.Core.Logic.{◌≢◌, ◌⊎◌}
use mathlib.Core.Bool.{Bool, true, false}
use mathlib.Core.Option
use mathlib.Core.Option.{Option, none, some}
use mathlib.Core.List.{List, [], ◌∷◌, ◌++◌}
use native.Mathlib.Omega.{arith}
use cloudreve.Prelude.Tests.{◌==◌, if◌then◌else◌}

abbrev pub Bytes : Type 0
Bytes = List ℕ

-- The bytes of an ASCII text.
abbrev pub codes : String → Bytes
codes String.[] = []
codes (String.◌∷◌ c s) = code c ∷ codes s

-- `s == t` on strings.
unfoldable pub eqb : Bytes → Bytes → Bool
eqb [] [] = true
eqb (x ∷ xs) (y ∷ ys) = if x == y then eqb xs ys else false
eqb _ _ = false

pub eqb_refl : (s : Bytes) → eqb s s ≡ true
unfolding eqb
eqb_refl [] = refl
eqb_refl (x ∷ xs) = ground (arith, eqb_refl xs)

pub eqb→≡ : (s t : Bytes) → eqb s t ≡ true → s ≡ t
unfolding eqb
eqb→≡ [] [] h = refl
eqb→≡ [] (y ∷ ys) h = ground arith
eqb→≡ (x ∷ xs) [] h = ground arith
eqb→≡ (x ∷ xs) (y ∷ ys) h = ground (arith, eqb→≡ xs ys)

pub ≢→eqb : (s t : Bytes) → s ≢ t → eqb s t ≡ false
≢→eqb s t h = ground (arith, eqb→≡ s t)

pub eqb_cases : (s t : Bytes) → ((s ≡ t) × (eqb s t ≡ true)) ⊎ ((s ≢ t) × (eqb s t ≡ false))
eqb_cases s t = ground (arith, eqb→≡ s t, eqb_refl s)

-- `strings.HasPrefix(s, p)`
unfoldable pub has_prefix : Bytes → Bytes → Bool
has_prefix s [] = true
has_prefix [] (y ∷ ys) = false
has_prefix (x ∷ xs) (y ∷ ys) = if x == y then has_prefix xs ys else false

-- `strings.Contains(s, p)`
unfoldable pub contains : Bytes → Bytes → Bool
contains [] p = has_prefix [] p
contains (c ∷ s) p = let rest = contains s p in if has_prefix (c ∷ s) p then true else rest

-- `strings.IndexByte(s, c)`, with `none` for -1.
unfoldable pub index_byte : Bytes → ℕ → Option ℕ
index_byte [] c = none
index_byte (x ∷ xs) c = if x == c then some 0 else Option.map (λ i. i + 1) (index_byte xs c)

-- `strconv.FormatUint(n, 10)` of a 64-bit number, which has at most 20 digits.
unfoldable pub decimal : ℕ → ℕ → Bytes
decimal zero n = []
decimal (suc fuel) n =
    let before = decimal fuel (n / 10) in
    (if n / 10 == 0 then [] else before) ++ (b'0' + n % 10) ∷ []

unfoldable pub format_uint : ℕ → Bytes
unfolding decimal
format_uint = decimal 20
