-- ===== src/Webdav/If/Shrinks.antt =====
-- Every token but the end, and all that is made of tokens, leaves less of the header.
use cloudreve.Prelude.{
  ℕ, zero, suc, ◌<◌, ◌≤◌, ◌≡◌, refl, sym, ◌∙◌, Bool, true, false, ◌||◌, Option, none, some, List,
  [], ◌∷◌, ◌++◌, length, Bytes, codes, eqb, ◌==◌, Bool-cases, Option-cases, inl, inr, ◌⊎◌, arith,
}
use cloudreve.Webdav.Lock.State.{Condition}
use cloudreve.Webdav.If.{
  TokenType, eof_token_type, angle_token_type, square_token_type, Token, IfList, Parsed,
  out_of_fuel, failed, parsed, skip_blanks, is_delimiter, split_word, cut, enclosed, word_token,
  lex_at, lex, condition_of, parse_condition, is_rune, is_nil, conditions_loop, parse_list,
}

abbrev pub is_eof : TokenType → Bool
is_eof eof_token_type = true
is_eof _ = false

skip_blanks_le : (s : Bytes) → length (skip_blanks s) ≤ length s
skip_blanks_le [] = omega arith
skip_blanks_le (c ∷ s) =
    let rest = skip_blanks_le s in
    elim (Bool-cases (c == 9 || c == 32)) [
      | inl e ↦ rw e (omega arith)
      | inr e ↦ rw e (omega arith)
    ]

split_word_le : (s : Bytes) → length (split_word s).1 ≤ length s
split_word_le [] = omega arith
split_word_le (c ∷ s) =
    let rest = split_word_le s in
    elim (Bool-cases (is_delimiter c)) [ inl e ↦ rw e (omega arith) | inr e ↦ rw e (omega arith) ]

-- What a cut leaves.
abbrev after_cut : Option (Bytes × Bytes) → ℕ
after_cut none = 0
after_cut (some r) = length r.1

cut_le : (close : ℕ) (s : Bytes) → after_cut (cut close s) ≤ length s
cut_le close [] = omega arith
cut_le close (c ∷ s) =
    let rest = cut_le close s in
    elim (Bool-cases (c == close)) [
      | inl e ↦ rw e (omega arith)
      | inr e ↦ elim (Option-cases (cut close s)) [
        | inl f ↦ rw (e, f) (omega arith)
        | inr (r, f) ↦
            let same : after_cut (cut close s) ≡ length r.1 = rw f refl in rw (e, f) (omega arith)
      ]
    ]

enclosed-remaining :
    (kind : TokenType) (o : Option (Bytes × Bytes))
    → length (enclosed kind o).remaining ≡ after_cut o
enclosed-remaining kind none = refl
enclosed-remaining kind (some r) = refl

word_token-remaining : (w : Bytes × Bytes) → (word_token w).remaining ≡ w.1
word_token-remaining w = elim (Bool-cases (eqb w.0 (codes "Not"))) [
  | inl e ↦ rw e refl
  | inr e ↦ rw e refl
]

lex_at_lt : (c : ℕ) (s : Bytes) → length (lex_at (c ∷ s)).remaining < suc (length s)
lex_at_lt c s = elim (Bool-cases (is_delimiter c)) [
  | inr word ↦
      let le = split_word_le s in
      rw (word, word_token-remaining (c ∷ (split_word s).0, (split_word s).1)) (omega arith)
  | inl delimiter ↦ elim (Bool-cases (c == 60)) [
    | inl angle ↦
        let le = cut_le 62 s in
        rw (delimiter, angle, enclosed-remaining angle_token_type (cut 62 s)) (omega arith)
    | inr no_angle ↦ elim (Bool-cases (c == 91)) [
      | inl square ↦
          let le = cut_le 93 s in
          rw (delimiter, no_angle, square, enclosed-remaining square_token_type (cut 93 s))
            (omega arith)
      | inr single ↦ rw (delimiter, no_angle, single) (omega arith)
    ]
  ]
]

lex_at_shorter :
    (s : Bytes) → is_eof (lex_at s).token_type ≡ false → length (lex_at s).remaining < length s
lex_at_shorter [] h = ground arith
lex_at_shorter (c ∷ s) h = lex_at_lt c s

pub lex_shorter :
    (s : Bytes) → is_eof (lex s).token_type ≡ false → length (lex s).remaining < length s
unfolding lex
lex_shorter s h =
    let le = skip_blanks_le s in let lt = lex_at_shorter (skip_blanks s) h in omega arith

condition_of_lem :
    (negated : Bool) (t : Token) (x : Condition × Bytes)
    → condition_of negated t ≡ some x
    → (is_eof t.token_type ≡ false) × (t.remaining ≡ x.1)
unfolding condition_of
condition_of_lem negated t x h = ground arith

parse_condition_cases :
    (s : Bytes)
    → ((is_eof (lex s).token_type ≡ false)
        × (parse_condition s ≡ condition_of true (lex (lex s).remaining)))
      ⊎ (parse_condition s ≡ condition_of false (lex s))
unfolding parse_condition
parse_condition_cases s = ground arith

pub parse_condition_shorter :
    (s : Bytes) (x : Condition × Bytes) → parse_condition s ≡ some x → length x.1 < length s
parse_condition_shorter s x h = elim (parse_condition_cases s) [
  | inl (one, e) ↦
      let t = condition_of_lem true (lex (lex s).remaining) x (sym e ∙ h) in
      let first = lex_shorter s one in
      let second = lex_shorter (lex s).remaining t.0 in rw (sym t.1) (omega arith)
  | inr e ↦
      let t = condition_of_lem false (lex s) x (sym e ∙ h) in
      let lt = lex_shorter s t.0 in rw (sym t.1) (omega arith)
]

is_rune-is_eof : (c : ℕ) (k : TokenType) → is_rune c k ≡ true → is_eof k ≡ false
is_rune-is_eof c k h = ground arith

-- A loop has fuel enough to end, what it leaves is shorter than `s`, and its list has a condition.
unfoldable pub Ends : Bytes → Parsed (IfList × Bytes) → Type 0
Ends s out_of_fuel = ⊥
Ends s failed = Unit
Ends s (parsed x) = (length x.1 < length s) × (is_nil x.0.conditions ≡ false)

conditions_loop-Ends :
    (fuel : ℕ) (s : Bytes) (conditions : List Condition)
    → length s < fuel
    → (whole : Bytes) → length s ≤ length whole
    → Ends whole (conditions_loop fuel s conditions)
unfolding Ends conditions_loop
conditions_loop-Ends zero s conditions h whole le = omega arith
conditions_loop-Ends (suc fuel) s conditions h whole le =
    elim (Bool-cases (is_rune 41 (lex s).token_type)) [
      | inl close ↦
          let lt = lex_shorter s (is_rune-is_eof 41 (lex s).token_type close) in
          elim (Bool-cases (is_nil conditions)) [
            | inl e ↦ rw (Ends, conditions_loop, close, e) tt
            | inr e ↦ rw (Ends, conditions_loop, close, e) (omega arith, e)
          ]
      | inr other ↦ elim (Option-cases (parse_condition s)) [
        | inl e ↦ rw (Ends, conditions_loop, other, e) tt
        | inr (x, e) ↦
            let lt = parse_condition_shorter s x e in
            let rest =
              conditions_loop-Ends fuel x.1 (conditions ++ (x.0 ∷ [])) (omega arith) whole
                (omega arith) in
            rw (conditions_loop, other, e) rest
      ]
    ]

pub parse_list-Ends : (s : Bytes) → Ends s (parse_list s)
unfolding Ends parse_list
parse_list-Ends s =
    let t = lex s in
    elim (Bool-cases (is_rune 40 (lex s).token_type)) [
      | inl starts ↦
          let lt = lex_shorter s (is_rune-is_eof 40 (lex s).token_type starts) in
          rw starts (
            conditions_loop-Ends (suc (length (lex s).remaining)) (lex s).remaining [] (omega arith)
              s (omega arith))
      | inr other ↦ rw other tt
    ]
