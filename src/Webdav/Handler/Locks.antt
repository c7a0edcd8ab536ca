-- ===== src/Webdav/Handler/Locks.antt =====
-- pkg/webdav/xml.go and lock.go: the durations that LOCK takes and announces.
use cloudreve.Prelude.{
  ℕ, ◌*◌, ◌/◌, ◌^◌, ◌<◌, ◌≡◌, refl, sym, ap, ◌∙◌, arith, none, some, [], ◌∷◌, ◌>>=◌, pos, Bytes,
  nat_eq, Option-cases, Bool-cases, inl, inr, ◌-◌, ltb, eqb, has_prefix, codes, drop,
}
use cloudreve.Webdav.Timeout.{
  before_comma, parse_seconds, parse_int, starts_with_digit, infinite_timeout, parse_timeout,
}
use cloudreve.Webdav.Timeout.Seconds.{parse_seconds-format_uint}
use cloudreve.Webdav.Handler.Replies.{format_seconds}

seconds_unique : {m n : ℕ} → some (pos m) ≡ some (pos n) → m ≡ n
seconds_unique h = cc

whole_seconds :
    (s : Bytes) (n : ℕ)
    → parse_seconds s ≡ some (pos n)
    → (k : ℕ) × (k < 2 ^ 32) × (n ≡ k * 1000000000)
unfolding parse_seconds
whole_seconds s n h = elim (Bool-cases (starts_with_digit s)) [
  | inr e ↦
      let lost : parse_seconds s ≡ none = rw (parse_seconds, e) refl in
      let no_way : ⊥ = cc in elim no_way [ ]
  | inl e ↦ elim (Option-cases (parse_int s)) [
    | inl f ↦
        let lost : parse_seconds s ≡ none = rw (parse_seconds, e, f, ◌>>=◌) refl in
        let no_way : ⊥ = cc in elim no_way [ ]
    | inr (k, f) ↦ elim (Bool-cases (ltb (2 ^ 32 - 1) k)) [
      | inl g ↦
          let lost : parse_seconds s ≡ none = rw (parse_seconds, e, f, ◌>>=◌, g) refl in
          let no_way : ⊥ = cc in elim no_way [ ]
      | inr g ↦
          let read : parse_seconds s ≡ some (pos (k * 1000000000)) =
            rw (parse_seconds, e, f, ◌>>=◌, g) refl in
          (k, ground (arith, g), seconds_unique (sym h ∙ read))
    ]
  ]
]

-- Where the header asks for a time, it is a number of seconds that some text gives.
asked_seconds :
    (trim_space : Bytes → Bytes) (header : Bytes) (n : ℕ)
    → parse_timeout trim_space header ≡ some (pos n)
    → (s : Bytes) × (parse_seconds s ≡ some (pos n))
unfolding parse_timeout
asked_seconds trim_space [] n h =
    let first : parse_timeout trim_space [] ≡ some infinite_timeout = refl in
    let no_way : ⊥ = cc in elim no_way [ ]
asked_seconds trim_space (c ∷ rest) n h =
    let s = trim_space (before_comma (c ∷ rest)) in
    elim (Bool-cases (eqb s (codes "Infinite"))) [
      | inl e ↦
          let first : parse_timeout trim_space (c ∷ rest) ≡ some infinite_timeout =
            rw (parse_timeout, e) refl in
          let no_way : ⊥ = cc in elim no_way [ ]
      | inr e ↦ elim (Bool-cases (has_prefix s (codes "Second-"))) [
        | inr f ↦
            let lost : parse_timeout trim_space (c ∷ rest) ≡ none = rw (parse_timeout, e, f) refl in
            let no_way : ⊥ = cc in elim no_way [ ]
        | inl f ↦
            let read : parse_timeout trim_space (c ∷ rest) ≡ parse_seconds (drop 7 s) =
              rw (parse_timeout, e, f) refl in
            (drop 7 s, sym read ∙ h)
      ]
    ]

-- A time that LOCK grants, and not for ever, is less than 2^63 nanoseconds, and the seconds that the
-- answer gives are read as that time.
pub parse_timeout-format_seconds :
    (trim_space : Bytes → Bytes) (header : Bytes) (n : ℕ)
    → parse_timeout trim_space header ≡ some (pos n)
    → (n < 2 ^ 63) × (parse_seconds (format_seconds (pos n)) ≡ some (pos n))
unfolding format_seconds
parse_timeout-format_seconds trim_space header n h =
    let (s, read) = asked_seconds trim_space header n h in
    let (k, small, e) = whole_seconds s n read in
    let back : n / 1000000000 ≡ k = omega (arith, e) in
    (
      omega (arith, e, small),
      rw back (parse_seconds-format_uint k small ∙ ap (λ m. some (pos m)) (sym e)),
    )
