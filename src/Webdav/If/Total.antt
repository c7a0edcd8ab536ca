-- ===== src/Webdav/If/Total.antt =====
-- The parser of the If header ends on every header.
use cloudreve.Prelude.{
  ℕ, zero, suc, ◌+◌, ◌<◌, ◌≡◌, refl, Bool, true, false, ◌&&◌, not, List, [], ◌∷◌, ◌++◌, length,
  Bytes, ◌==◌, Bool-cases, inl, inr, ◌⊎◌, arith,
}
use cloudreve.Webdav.If.{
  TokenType, angle_token_type, rune, IfList, Parsed, out_of_fuel, failed, parsed, lex, parse_list,
  is_nil, no_tag_lists_loop, tagged_lists_loop, parse_if_header,
}
use cloudreve.Webdav.If.Shrinks.{Ends, parse_list-Ends, lex_shorter}

Ends-cases :
    (s : Bytes) (r : Parsed (IfList × Bytes))
    → Ends s r
    → (r ≡ failed)
      ⊎ ((x : IfList × Bytes) × (r ≡ parsed x)
          × (length x.1 < length s)
          × (is_nil x.0.conditions ≡ false))
unfolding Ends
Ends-cases s out_of_fuel h = elim h [ ]
Ends-cases s failed h = inl refl
Ends-cases s (parsed x) h = inr (x, refl, h.0, h.1)

parse_list_cases :
    (s : Bytes)
    → (parse_list s ≡ failed)
      ⊎ ((x : IfList × Bytes) × (parse_list s ≡ parsed x)
          × (length x.1 < length s)
          × (is_nil x.0.conditions ≡ false))
parse_list_cases s = Ends-cases s (parse_list s) (parse_list-Ends s)

-- Every list has a condition.
abbrev pub Full : List IfList → Type 0
Full [] = Unit
Full (l ∷ lists) = (is_nil l.conditions ≡ false) × Full lists

-- The parser has ended, and what it accepts is a list or more, each of a condition or more.
abbrev pub Ended : Parsed (List IfList) → Type 0
Ended out_of_fuel = ⊥
Ended failed = Unit
Ended (parsed lists) = (is_nil lists ≡ false) × Full lists

Full-append :
    (lists : List IfList) (l : IfList)
    → Full lists
    → is_nil l.conditions ≡ false
    → Full (lists ++ (l ∷ []))
Full-append [] l full h = (h, tt)
Full-append (x ∷ lists) l full h = (full.0, Full-append lists l full.1 h)

is_nil-append : (lists : List IfList) (l : IfList) → is_nil (lists ++ (l ∷ [])) ≡ false
is_nil-append [] l = refl
is_nil-append (x ∷ lists) l = refl

no_tag_lists_loop-Ended :
    (fuel : ℕ) (s : Bytes) (lists : List IfList)
    → length s < fuel
    → Full lists
    → Ended (no_tag_lists_loop fuel s lists)
unfolding no_tag_lists_loop
no_tag_lists_loop-Ended zero s lists h full = omega arith
no_tag_lists_loop-Ended (suc fuel) s lists h full = elim (parse_list_cases s) [
  | inl e ↦ rw (no_tag_lists_loop, e) tt
  | inr (x, e, lt, some_condition) ↦
      let more = Full-append lists x.0 full some_condition in
      elim (Bool-cases (is_nil x.1)) [
        | inl f ↦ rw (no_tag_lists_loop, e, f) (is_nil-append lists x.0, more)
        | inr f ↦
            rw (no_tag_lists_loop, e, f)
              (no_tag_lists_loop-Ended fuel x.1 (lists ++ (x.0 ∷ [])) (omega arith) more)
      ]
]

tagged_lists_loop-Ended :
    (fuel : ℕ) (first : Bool) (resource_tag : Bytes) (n : ℕ) (s : Bytes) (lists : List IfList)
    → length s < fuel
    → Full lists
    → (k : TokenType) → (lex s).token_type ≡ k
    → Ended (tagged_lists_loop fuel first resource_tag n s lists)
unfolding tagged_lists_loop
tagged_lists_loop-Ended zero first resource_tag n s lists h full k kind = omega arith
tagged_lists_loop-Ended (suc fuel) first resource_tag n s lists h full angle_token_type kind =
    let lt = lex_shorter s (rw kind refl) in
    elim (Bool-cases (not first && (n == 0))) [
      | inl e ↦ rw (tagged_lists_loop, kind, e) tt
      | inr e ↦
          rw (tagged_lists_loop, kind, e)
            (tagged_lists_loop-Ended fuel false (lex s).token_str 0 (lex s).remaining lists
              (omega arith) full _ refl)
    ]
tagged_lists_loop-Ended (suc fuel) first resource_tag n s lists h full (rune c) kind =
    elim (Bool-cases (not (c == 40))) [
      | inl e ↦ rw (tagged_lists_loop, kind, e) tt
      | inr e ↦ elim (parse_list_cases s) [
        | inl f ↦ rw (tagged_lists_loop, kind, e, f) tt
        | inr (x, f, lt, some_condition) ↦
            let l : IfList = record x.0 { resource_tag = resource_tag } in
            let more = Full-append lists l full some_condition in
            elim (Bool-cases (is_nil x.1)) [
              | inl g ↦ rw (tagged_lists_loop, kind, e, f, g) (is_nil-append lists l, more)
              | inr g ↦
                  rw (tagged_lists_loop, kind, e, f, g)
                    (tagged_lists_loop-Ended fuel false resource_tag (n + 1) x.1
                      (lists ++ (record x.0 { resource_tag = resource_tag } ∷ [])) (omega arith)
                      more _ refl)
            ]
      ]
    ]
tagged_lists_loop-Ended (suc fuel) first resource_tag n s lists h full _ kind =
    rw (tagged_lists_loop, kind) tt

-- The parser has ended, on the first token of each kind.
Ended-at :
    (trim_space : Bytes → Bytes) (http_header : Bytes) (k : TokenType)
    → (lex (trim_space http_header)).token_type ≡ k
    → Ended (parse_if_header trim_space http_header)
unfolding parse_if_header
Ended-at trim_space http_header angle_token_type kind =
    let s = trim_space http_header in
    rw (parse_if_header, kind)
      (tagged_lists_loop-Ended (suc (length s)) true [] 0 s [] (omega arith) tt _ refl)
Ended-at trim_space http_header (rune c) kind =
    let s = trim_space http_header in
    elim (Bool-cases (c == 40)) [
      | inl e ↦
          rw (parse_if_header, kind, e)
            (no_tag_lists_loop-Ended (suc (length s)) s [] (omega arith) tt)
      | inr e ↦ rw (parse_if_header, kind, e) tt
    ]
Ended-at trim_space http_header _ kind = rw (parse_if_header, kind) tt

-- Whatever TrimSpace leaves of the header, the loops of parseIfHeader end, with as much fuel as that
-- has bytes and one more, and a header that it accepts has a list or more, each with a condition or
-- more.
pub parse_if_header-Ended :
    (trim_space : Bytes → Bytes) (http_header : Bytes)
    → Ended (parse_if_header trim_space http_header)
parse_if_header-Ended trim_space http_header = Ended-at trim_space http_header _ refl
