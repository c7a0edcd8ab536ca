-- ===== src/Webdav/If.antt =====
-- pkg/webdav/if.go: the parser of the If header. Its loops run on fuel.
pub mod Shrinks
pub mod Total
mod Tests
use cloudreve.Prelude.{
  ℕ, zero, suc, ◌+◌, ◌-◌, ◌≡◌, refl, Bool, true, false, ◌&&◌, ◌||◌, not, Option, none, some, List,
  [], ◌∷◌, ◌++◌, length, Bytes, codes, eqb, ◌==◌, if◌then◌else◌,
}
use cloudreve.Webdav.Lock.State.{Condition}

-- A rune below 0 is a kind of token, another one stands for itself.
pub data TokenType : Type 0 where
  err_token_type : TokenType
  eof_token_type : TokenType
  str_token_type : TokenType
  not_token_type : TokenType
  angle_token_type : TokenType
  square_token_type : TokenType
  rune : ℕ → TokenType

pub record Token : Type 0 where
  pub token_type : TokenType
  pub token_str : Bytes
  pub remaining : Bytes

pub record IfList : Type 0 where
  pub resource_tag : Bytes
  pub conditions : List Condition

-- What a loop gives: nothing yet when its fuel is used up, `ok == false`, or a result.
pub data Parsed (A : Type 0) : Type 0 where
  out_of_fuel : Parsed A
  failed : Parsed A
  parsed : A → Parsed A

abbrev pub skip_blanks : Bytes → Bytes
skip_blanks [] = []
skip_blanks (c ∷ s) = let rest = skip_blanks s in if c == 9 || c == 32 then rest else c ∷ s

-- The bytes that end a word.
abbrev is_delimiter : ℕ → Bool
is_delimiter c = c == 9 || c == 32 || c == 40 || c == 41 || c == 60 || c == 62 || c == 91 || c == 93

-- `s[:i]` and `s[i:]`, for the first `i` with a delimiter.
abbrev pub split_word : Bytes → Bytes × Bytes
split_word [] = ([], [])
split_word (c ∷ s) =
    let rest = split_word s in if is_delimiter c then ([], c ∷ s) else (c ∷ rest.0, rest.1)

-- What stands before the first `close`, and what comes after it.
abbrev pub cut : ℕ → Bytes → Option (Bytes × Bytes)
cut close [] = none
cut close (c ∷ s) =
    let rest = cut close s in
    if c == close then some ([], s) else elim rest [ none ↦ none | some r ↦ some (c ∷ r.0, r.1) ]

abbrev pub enclosed : TokenType → Option (Bytes × Bytes) → Token
enclosed kind none = record { token_type = err_token_type; token_str = []; remaining = [] }
enclosed kind (some (inside, after)) = record {
  token_type = kind;
  token_str = inside;
  remaining = after;
}

abbrev pub word_token : Bytes × Bytes → Token
word_token (word, after) =
    if eqb word (codes "Not")
    then record { token_type = not_token_type; token_str = []; remaining = after }
    else record { token_type = str_token_type; token_str = word; remaining = after }

abbrev pub lex_at : Bytes → Token
lex_at [] = record { token_type = eof_token_type; token_str = []; remaining = [] }
lex_at (c ∷ s) =
    if is_delimiter c
    then (if c == 60
        then enclosed angle_token_type (cut 62 s)
        else (if c == 91
            then enclosed square_token_type (cut 93 s)
            else record { token_type = rune c; token_str = []; remaining = s }))
    else word_token (split_word (c ∷ s))

unfoldable pub lex : Bytes → Token
lex s = lex_at (skip_blanks s)

-- The token that a condition is about, after a Not or without one.
unfoldable pub condition_of : Bool → Token → Option (Condition × Bytes)
condition_of negated t = elim t.token_type [
  | str_token_type ↦
      some (record { negated = negated; token = t.token_str; etag = [] }, t.remaining)
  | angle_token_type ↦
      some (record { negated = negated; token = t.token_str; etag = [] }, t.remaining)
  | square_token_type ↦
      some (record { negated = negated; token = []; etag = t.token_str }, t.remaining)
  | _ ↦ none
]

unfoldable pub parse_condition : Bytes → Option (Condition × Bytes)
unfolding condition_of
parse_condition s =
    let t = lex s in
    elim t.token_type [
      | not_token_type ↦ condition_of true (lex t.remaining)
      | _ ↦ condition_of false t
    ]

abbrev pub is_rune : ℕ → TokenType → Bool
is_rune c (rune d) = c == d
is_rune c _ = false

-- `len(l.conditions) == 0`
abbrev pub is_nil {ℓ} : {A : Type ℓ} → List A → Bool
is_nil [] = true
is_nil (x ∷ xs) = false

unfoldable pub conditions_loop : ℕ → Bytes → List Condition → Parsed (IfList × Bytes)
unfolding parse_condition
conditions_loop zero s conditions = out_of_fuel
conditions_loop (suc fuel) s conditions =
    let t = lex s in
    elim (is_rune 41 t.token_type) [
      | true ↦
          if is_nil conditions
          then failed
          else parsed (record { resource_tag = []; conditions = conditions }, t.remaining)
      | false ↦ elim (parse_condition s) [
        | none ↦ failed
        | some (c, remaining) ↦ conditions_loop fuel remaining (conditions ++ (c ∷ []))
      ]
    ]

unfoldable pub parse_list : Bytes → Parsed (IfList × Bytes)
unfolding conditions_loop
parse_list s =
    let t = lex s in
    if is_rune 40 t.token_type
    then conditions_loop (suc (length t.remaining)) t.remaining []
    else failed

unfoldable pub no_tag_lists_loop : ℕ → Bytes → List IfList → Parsed (List IfList)
unfolding parse_list
no_tag_lists_loop zero s lists = out_of_fuel
no_tag_lists_loop (suc fuel) s lists = elim (parse_list s) [
  | out_of_fuel ↦ out_of_fuel
  | failed ↦ failed
  | parsed (l, remaining) ↦
      if is_nil remaining
      then parsed (lists ++ (l ∷ []))
      else no_tag_lists_loop fuel remaining (lists ++ (l ∷ []))
]

unfoldable pub tagged_lists_loop : ℕ → Bool → Bytes → ℕ → Bytes → List IfList → Parsed (List IfList)
unfolding parse_list
tagged_lists_loop zero first resource_tag n s lists = out_of_fuel
tagged_lists_loop (suc fuel) first resource_tag n s lists =
    let t = lex s in
    elim t.token_type [
      | angle_token_type ↦
          if not first && (n == 0)
          then failed
          else tagged_lists_loop fuel false t.token_str 0 t.remaining lists
      | rune c ↦ if not (c == 40) then failed else elim (parse_list s) [
        | out_of_fuel ↦ out_of_fuel
        | failed ↦ failed
        | parsed (l, remaining) ↦
            let all = lists ++ (record l { resource_tag = resource_tag } ∷ []) in
            if is_nil remaining
            then parsed all
            else tagged_lists_loop fuel false resource_tag (n + 1) remaining all
      ]
      | _ ↦ failed
    ]

-- parseIfHeader on what `strings.TrimSpace` leaves of the header.
unfoldable pub parse_if_header : (Bytes → Bytes) → Bytes → Parsed (List IfList)
unfolding no_tag_lists_loop tagged_lists_loop
parse_if_header trim_space http_header =
    let s = trim_space http_header in
    elim (lex s).token_type [
      | rune c ↦ if c == 40 then no_tag_lists_loop (suc (length s)) s [] else failed
      | angle_token_type ↦ tagged_lists_loop (suc (length s)) true [] 0 s []
      | _ ↦ failed
    ]
