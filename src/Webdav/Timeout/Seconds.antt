-- ===== src/Webdav/Timeout/Seconds.antt =====
-- A number of seconds that is written as the header wants it is read again.
use native.Mathlib.Nat.{pow-suc}
use mathlib.Core.Option
use cloudreve.Prelude.{
  ℕ, zero, suc, ◌+◌, ◌-◌, ◌*◌, ◌/◌, ◌%◌, ◌^◌, ◌<◌, ◌≡◌, refl, sym, ap, ◌∙◌, true, false, Option,
  none, some, [], ◌∷◌, ◌++◌, ◌>>=◌, pos, Bytes, codes, eqb, has_prefix, index_byte, ltb, ◌==◌, ==→≡,
  decimal, format_uint, Bool-cases, Option-cases, inl, inr, arith,
}
use cloudreve.Webdav.Timeout.{
  is_digit, digits_from, parse_int, starts_with_digit, parse_seconds, before_comma, parse_timeout,
}

digit_lem : (d : ℕ) → d < 10 → is_digit (b'0' + d) ≡ true
digit_lem d h = ground arith

lost_absurd : {v : ℕ} {P : Option ℕ} → none ≡ some v → none ≡ P
lost_absurd e = cc

found_absurd : {A : Type 0} {x : A} {P : Option A} → some x ≡ none → P ≡ none
found_absurd e = cc

digits_from-snoc :
    (value v : ℕ) (s : Bytes) (d : ℕ)
    → d < 10
    → digits_from value s ≡ some v
    → digits_from value (s ++ (b'0' + d) ∷ []) ≡ some (v * 10 + d)
unfolding digits_from
digits_from-snoc value v [] d h e =
    let same : value * 10 + (b'0' + d - b'0') ≡ value * 10 + d = omega arith in
    rw (digit_lem d h, same) (ap (Option.map (λ x. x * 10 + d)) e)
digits_from-snoc value v (c ∷ s) d h e = elim (Bool-cases (is_digit c)) [
  | inl digit ↦ rw digit (digits_from-snoc (value * 10 + (c - b'0')) v s d h (rw digit refl ∙ e))
  | inr other ↦ rw other (lost_absurd (sym (rw other refl) ∙ e))
]

pub digits_from-decimal : (fuel n : ℕ) → n < 10 ^ fuel → digits_from 0 (decimal fuel n) ≡ some n
unfolding decimal
digits_from-decimal zero n h = unfold digits_from in (ap some (omega arith))
digits_from-decimal (suc fuel) n h =
    let lt : n / 10 < 10 ^ fuel = omega (arith, pow-suc 10 fuel) in
    let rest = digits_from-decimal fuel (n / 10) lt in
    let digit : n % 10 < 10 = omega arith in
    elim (Bool-cases (n / 10 == 0)) [
      | inl e ↦ rw e (
          digits_from-snoc 0 0 [] (n % 10) digit (unfold digits_from in refl)
          ∙ ap some (omega (arith, ==→≡ (n / 10) 0 e)))
      | inr e ↦ rw e (
          digits_from-snoc 0 (n / 10) (decimal fuel (n / 10)) (n % 10) digit rest
          ∙ ap some (omega arith))
    ]

index_byte-snoc :
    (s : Bytes) (c x : ℕ)
    → index_byte s x ≡ none
    → (c == x) ≡ false
    → index_byte (s ++ c ∷ []) x ≡ none
unfolding index_byte
index_byte-snoc [] c x e f = rw f refl
index_byte-snoc (y ∷ s) c x e f = elim (Bool-cases (y == x)) [
  | inl same ↦
      let found : index_byte (y ∷ s) x ≡ some 0 = rw same refl in found_absurd (sym found ∙ e)
  | inr other ↦ elim (Option-cases (index_byte s x)) [
    | inl g ↦ rw (other, index_byte-snoc s c x g f) refl
    | inr (i, g) ↦
        let found : index_byte (y ∷ s) x ≡ some (i + 1) = rw (other, g) refl in
        found_absurd (sym found ∙ e)
  ]
]

no_comma : (fuel n : ℕ) → index_byte (decimal fuel n) b',' ≡ none
unfolding decimal
no_comma zero n = unfold index_byte in refl
no_comma (suc fuel) n =
    let other : ((b'0' + n % 10) == b',') ≡ false = ground arith in
    elim (Bool-cases (n / 10 == 0)) [
      | inl e ↦ rw e (index_byte-snoc [] (b'0' + n % 10) b',' (unfold index_byte in refl) other)
      | inr e ↦ rw e (
          index_byte-snoc (decimal fuel (n / 10)) (b'0' + n % 10) b',' (no_comma fuel (n / 10))
            other)
    ]

starts_with_digit-append :
    (s t : Bytes) → starts_with_digit s ≡ true → starts_with_digit (s ++ t) ≡ true
starts_with_digit-append [] t e = ground arith
starts_with_digit-append (c ∷ s) t e = e

pub starts_with_digit-decimal : (fuel n : ℕ) → starts_with_digit (decimal (suc fuel) n) ≡ true
unfolding decimal
starts_with_digit-decimal zero n =
    let digit = digit_lem (n % 10) (omega arith) in
    elim (Bool-cases (n / 10 == 0)) [ inl e ↦ rw e digit | inr e ↦ rw e digit ]
starts_with_digit-decimal (suc fuel) n =
    let digit = digit_lem (n % 10) (omega arith) in
    elim (Bool-cases (n / 10 == 0)) [
      | inl e ↦ rw e digit
      | inr e ↦ rw e (
          starts_with_digit-append (decimal (suc fuel) (n / 10)) ((b'0' + n % 10) ∷ [])
            (starts_with_digit-decimal fuel (n / 10)))
    ]

pub parse_seconds-format_uint :
    (n : ℕ) → n < 2 ^ 32 → parse_seconds (format_uint n) ≡ some (pos (n * 1000000000))
unfolding parse_seconds parse_int format_uint
parse_seconds-format_uint n h =
    let small : ltb n (2 ^ 63) ≡ true = ground arith in
    let allowed : ltb (2 ^ 32 - 1) n ≡ false = ground arith in
    rw
      (
        starts_with_digit-decimal 19 n,
        digits_from-decimal 20 n (omega arith),
        ◌>>=◌,
        small,
        ◌>>=◌,
        allowed,
      )
      refl

before_comma_lem : (s : Bytes) → index_byte s b',' ≡ none → before_comma s ≡ s
before_comma_lem s e = rw (before_comma, e) refl

-- What is read where the text up to a comma is `Second-` and `t`.
parse_timeout_lem :
    (trim_space : Bytes → Bytes) (c : ℕ) (s t : Bytes)
    → trim_space (before_comma (c ∷ s)) ≡ codes "Second-" ++ t
    → parse_timeout trim_space (c ∷ s) ≡ parse_seconds t
unfolding parse_timeout
parse_timeout_lem trim_space c s t e = rw (parse_timeout, e) (unfold eqb has_prefix in refl)

-- Where TrimSpace leaves the text as it is, `Second-` and the digits of a number of seconds below
-- 2^32 are read as that many seconds.
pub parse_timeout-format_uint :
    (trim_space : Bytes → Bytes) (n : ℕ)
    → n < 2 ^ 32
    → trim_space (codes "Second-" ++ format_uint n) ≡ codes "Second-" ++ format_uint n
    → parse_timeout trim_space (codes "Second-" ++ format_uint n) ≡ some (pos (n * 1000000000))
parse_timeout-format_uint trim_space n h trimmed =
    let found : index_byte (codes "Second-" ++ format_uint n) b',' ≡ none =
      unfold index_byte format_uint in (rw (no_comma 20 n) refl) in
    let whole : before_comma (codes "Second-" ++ format_uint n) ≡ codes "Second-" ++ format_uint n =
      before_comma_lem (codes "Second-" ++ format_uint n) found in
    parse_timeout_lem trim_space _ _ (format_uint n) (ap trim_space whole ∙ trimmed)
    ∙ parse_seconds-format_uint n h
