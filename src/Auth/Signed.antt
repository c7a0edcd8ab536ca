-- ===== src/Auth/Signed.antt =====
-- What a signature says: Check accepts what Sign gives until it expires, and nothing else.
use mathlib.Core.List.{append-nil, append_assoc}
use cloudreve.Prelude.{
  ℕ, zero, suc, ◌+◌, ◌/◌, ◌%◌, ◌^◌, ◌<◌, ◌≡◌, refl, sym, ◌∙◌, arith, Bool, true, false, none, some,
  [], ◌∷◌, ◌++◌, ℤ, pos, negsuc, Bytes, eqb, eqb_refl, eqb→≡, decimal, format_uint, ltb, leb,
  if◌then◌else◌, ◌==◌, ◌>>=◌, Bool-cases, Option-cases, inl, inr,
}
use cloudreve.Webdav.Timeout.{is_digit}
use cloudreve.Webdav.Timeout.Seconds.{digits_from-decimal, starts_with_digit-decimal}
use cloudreve.Auth.{
  err_auth_failed, err_expires_missing, err_expired, HmacAuth, format_int, digits_of, parse_int64,
  last_part, is_expired, sign, check_expires, check,
}

unfoldable has_colon : Bytes → Bool
has_colon [] = false
has_colon (c ∷ s) = let rest = has_colon s in if c == b':' then true else rest

last_part-plain : (part t : Bytes) → has_colon t ≡ false → last_part part t ≡ part ++ t
unfolding last_part has_colon
last_part-plain part [] e = sym (append-nil part)
last_part-plain part (c ∷ t) e = elim (Bool-cases (c == b':')) [
  | inl f ↦
      let colon : has_colon (c ∷ t) ≡ true = rw f refl in let no_way : ⊥ = cc in elim no_way [ ]
  | inr f ↦
      let rest : has_colon t ≡ false = rw (sym e) (rw f refl) in
      rw f (last_part-plain (part ++ (c ∷ [])) t rest ∙ append_assoc part (c ∷ []) t)
]

last_part-after : (part m t : Bytes) → has_colon t ≡ false → last_part part (m ++ (b':' ∷ t)) ≡ t
unfolding last_part
last_part-after part [] t e = last_part-plain [] t e
last_part-after part (c ∷ m) t e = elim (Bool-cases (c == b':')) [
  | inl f ↦ rw f (last_part-after [] m t e)
  | inr f ↦ rw f (last_part-after (part ++ (c ∷ [])) m t e)
]

has_colon-snoc :
    (s : Bytes) (d : ℕ) → d < 10 → has_colon s ≡ false → has_colon (s ++ ((b'0' + d) ∷ [])) ≡ false
unfolding has_colon
has_colon-snoc [] d h e = ground (arith, h)
has_colon-snoc (c ∷ s) d h e = elim (Bool-cases (c == b':')) [
  | inl f ↦
      let colon : has_colon (c ∷ s) ≡ true = rw f refl in let no_way : ⊥ = cc in elim no_way [ ]
  | inr f ↦
      let rest : has_colon s ≡ false = rw (sym e) (rw f refl) in rw f (has_colon-snoc s d h rest)
]

has_colon-decimal : (fuel n : ℕ) → has_colon (decimal fuel n) ≡ false
unfolding decimal
has_colon-decimal zero n = unfold has_colon in refl
has_colon-decimal (suc fuel) n = elim (Bool-cases (n / 10 == 0)) [
  | inl e ↦ rw e (has_colon-snoc [] (n % 10) (omega arith) (unfold has_colon in refl))
  | inr e ↦ rw e (
      has_colon-snoc (decimal fuel (n / 10)) (n % 10) (omega arith)
        (has_colon-decimal fuel (n / 10)))
]

-- The numbers of an int64.
abbrev pub in_int64 : ℤ → Bool
in_int64 (pos n) = ltb n (2 ^ 63)
in_int64 (negsuc n) = ltb n (2 ^ 63)

format_int-has_colon : (n : ℤ) → has_colon (format_int n) ≡ false
unfolding format_int format_uint
format_int-has_colon (pos n) = has_colon-decimal 20 n
format_int-has_colon (negsuc n) = unfold has_colon in has_colon-decimal 20 (suc n)

digits_of-format_uint : (n : ℕ) → n < 10 ^ 20 → digits_of (format_uint n) ≡ some n
unfolding format_uint
digits_of-format_uint n h = rw (starts_with_digit-decimal 19 n) (digits_from-decimal 20 n h)

parse_int64-plain :
    (s : Bytes) (n : ℕ)
    → digits_of s ≡ some n
    → ltb n (2 ^ 63) ≡ true
    → parse_int64 s ≡ some (pos n)
unfolding parse_int64
parse_int64-plain [] n e h = let no_way : ⊥ = cc in elim no_way [ ]
parse_int64-plain (c ∷ s) n e h = elim (Bool-cases (is_digit c)) [
  | inr f ↦
      let lost : digits_of (c ∷ s) ≡ none = rw f refl in let no_way : ⊥ = cc in elim no_way [ ]
  | inl f ↦
      let minus : (c == b'-') ≡ false = ground (arith, f) in
      let plus : (c == b'+') ≡ false = ground (arith, f) in
      rw (parse_int64, minus, plus, e, ◌>>=◌, h) refl
]

parse_int64-format_int : (n : ℤ) → in_int64 n ≡ true → parse_int64 (format_int n) ≡ some n
unfolding format_int
parse_int64-format_int (pos n) h =
    parse_int64-plain (format_uint n) n (digits_of-format_uint n (ground (arith, h))) h
parse_int64-format_int (negsuc n) h =
    let digits = digits_of-format_uint (suc n) (ground (arith, h)) in
    let fits : leb (suc n) (2 ^ 63) ≡ true = ground (arith, h) in
    unfold parse_int64 in rw (digits, ◌>>=◌, fits) refl

module _ (mac : Bytes → Bytes → Bytes) (auth : HmacAuth) where
  check_text :
      (now : ℤ) (body text t : Bytes) (n : ℤ)
      → last_part [] text ≡ t
      → parse_int64 t ≡ some n
      → check mac auth now body text ≡ check_expires mac auth now body text n
  unfolding check
  check_text now body text [] n e p = let no_way : ⊥ = unfold parse_int64 in cc in elim no_way [ ]
  check_text now body text (c ∷ s) n e p = rw (check, e, p) refl

  last_part-sign :
      (body : Bytes) (expires : ℤ) → last_part [] (sign mac auth body expires) ≡ format_int expires
  unfolding sign
  last_part-sign body expires =
      last_part-after [] (mac auth.secret_key (body ++ (b':' ∷ format_int expires)))
        (format_int expires) (format_int-has_colon expires)

  -- What Sign gives for a body, with a time that is an int64, is accepted by Check for that body until the
  -- time is over, and always for the time 0, and after it the answer is that it has expired.
  pub check-sign :
      (now : ℤ) (body : Bytes) (expires : ℤ)
      → in_int64 expires ≡ true
      → check mac auth now body (sign mac auth body expires)
        ≡ (if is_expired expires now then some err_expired else none)
  check-sign now body expires fits =
      check_text now body (sign mac auth body expires) (format_int expires) expires
        (last_part-sign body expires) (parse_int64-format_int expires fits)
      ∙ (elim (Bool-cases (is_expired expires now)) [
        | inl e ↦ rw e refl
        | inr e ↦ rw (e, eqb_refl (sign mac auth body expires)) refl
      ])

  accepted_expires :
      (now : ℤ) (body text : Bytes) (expires : ℤ)
      → check_expires mac auth now body text expires ≡ none
      → (text ≡ sign mac auth body expires) × (is_expired expires now ≡ false)
  accepted_expires now body text expires h = elim (Bool-cases (is_expired expires now)) [
    | inl e ↦
        let lost : check_expires mac auth now body text expires ≡ some err_expired = rw e refl in
        let no_way : ⊥ = cc in elim no_way [ ]
    | inr e ↦ elim (Bool-cases (eqb (sign mac auth body expires) text)) [
      | inl f ↦ (sym (eqb→≡ (sign mac auth body expires) text f), e)
      | inr f ↦
          let lost : check_expires mac auth now body text expires ≡ some err_auth_failed =
            rw (e, f) refl in
          let no_way : ⊥ = cc in elim no_way [ ]
    ]
  ]

  accepted_part :
      (now : ℤ) (body text t : Bytes)
      → last_part [] text ≡ t
      → check mac auth now body text ≡ none
      → (expires : ℤ) × (text ≡ sign mac auth body expires) × (is_expired expires now ≡ false)
  unfolding check
  accepted_part now body text [] e h =
      let lost : check mac auth now body text ≡ some err_expires_missing = rw (check, e) refl in
      let no_way : ⊥ = cc in elim no_way [ ]
  accepted_part now body text (c ∷ s) e h = elim (Option-cases (parse_int64 (c ∷ s))) [
    | inl f ↦
        let lost : check mac auth now body text ≡ some err_auth_failed = rw (check, e, f) refl in
        let no_way : ⊥ = cc in elim no_way [ ]
    | inr (n, f) ↦
        let a =
          accepted_expires now body text n (sym (check_text now body text (c ∷ s) n e f) ∙ h) in
        (n, a.0, a.1)
  ]

  -- A text that Check accepts for a body is what Sign gives for it with some time that is not over.
  pub check_sound :
      (now : ℤ) (body text : Bytes)
      → check mac auth now body text ≡ none
      → (expires : ℤ) × (text ≡ sign mac auth body expires) × (is_expired expires now ≡ false)
  check_sound now body text h = accepted_part now body text (last_part [] text) refl h
