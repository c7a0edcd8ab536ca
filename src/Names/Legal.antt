-- ===== src/Names/Legal.antt =====
-- The names that are legal, by their bytes.
use cloudreve.Prelude.{
  ℕ, ◌<◌, ◌≡◌, ◌↔◌, refl, sym, ap, ◌∙◌, arith, Bool, true, false, ◌||◌, List, [], ◌∷◌, Bytes,
  contains, has_prefix, length, if◌then◌else◌, ◌==◌, Bool-cases, inl, inr,
}
use cloudreve.Names.{has_one_of, ends_in_space, validate_legal_name}

abbrev pub reserved_bytes : List ℕ
reserved_bytes = 92 ∷ b'?' ∷ b'*' ∷ b'<' ∷ 34 ∷ b':' ∷ b'>' ∷ b'/' ∷ b'|' ∷ []

unfoldable pub is_in : ℕ → List ℕ → Bool
is_in x [] = false
is_in x (c ∷ cs) = (x == c) || is_in x cs

-- Whether a name has one of some bytes.
unfoldable pub has_any : List ℕ → Bytes → Bool
unfolding is_in
has_any cs [] = false
has_any cs (x ∷ s) = is_in x cs || has_any cs s

unfoldable has_byte : ℕ → Bytes → Bool
has_byte c [] = false
has_byte c (x ∷ s) = (x == c) || has_byte c s

contains-byte : (c : ℕ) (s : Bytes) → contains s (c ∷ []) ≡ has_byte c s
unfolding contains has_prefix has_byte
contains-byte c [] = refl
contains-byte c (x ∷ s) =
    let rest = contains-byte c s in
    elim (Bool-cases (x == c)) [ inl e ↦ rw e refl | inr e ↦ rw e rest ]

or_swap : (a b p q : Bool) → ((a || p) || (b || q)) ≡ ((a || b) || (p || q))
or_swap true b p q = refl
or_swap false true true q = refl
or_swap false true false q = refl
or_swap false false p q = refl

has_any-cons :
    (c : ℕ) (cs : List ℕ) (s : Bytes) → has_any (c ∷ cs) s ≡ (has_byte c s || has_any cs s)
unfolding has_any has_byte is_in
has_any-cons c cs [] = refl
has_any-cons c cs (x ∷ s) =
    ap (λ r. ((x == c) || is_in x cs) || r) (has_any-cons c cs s)
    ∙ or_swap (x == c) (has_byte c s) (is_in x cs) (has_any cs s)

abbrev singles : List ℕ → List Bytes
singles [] = []
singles (c ∷ cs) = (c ∷ []) ∷ singles cs

has_any-nil : (s : Bytes) → has_any [] s ≡ false
unfolding has_any is_in
has_any-nil [] = refl
has_any-nil (x ∷ s) = has_any-nil s

if_or : (a b : Bool) → (if a then true else b) ≡ (a || b)
if_or true b = refl
if_or false b = refl

has_one_of-singles : (name : Bytes) (cs : List ℕ) → has_one_of name (singles cs) ≡ has_any cs name
unfolding has_one_of
has_one_of-singles name [] = sym (has_any-nil name)
has_one_of-singles name (c ∷ cs) =
    if_or (contains name (c ∷ [])) (has_one_of name (singles cs))
    ∙ ap (λ b. b || has_one_of name (singles cs)) (contains-byte c name)
    ∙ ap (λ b. has_byte c name || b) (has_one_of-singles name cs)
    ∙ sym (has_any-cons c cs name)

-- A name of 1 to 255 bytes, none of which is reserved and the last of which is no space.
pub record IsLegal (name : Bytes) : Type 0 where
  pub none_reserved : has_any reserved_bytes name ≡ false
  pub not_empty : 0 < length name
  pub short : length name < 256
  pub no_space : ends_in_space name ≡ false

pub IsLegal-sound : (name : Bytes) → validate_legal_name name ≡ true → IsLegal name
unfolding validate_legal_name
IsLegal-sound name h =
    let reserved = has_one_of-singles name reserved_bytes in
    record {
      none_reserved = ground (arith, h, reserved);
      not_empty = ground (arith, h);
      short = ground (arith, h);
      no_space = ground (arith, h);
    }

pub IsLegal-complete : (name : Bytes) → IsLegal name → validate_legal_name name ≡ true
unfolding validate_legal_name
IsLegal-complete name l =
    let reserved = has_one_of-singles name reserved_bytes in
    ground (arith, reserved, l.none_reserved, l.not_empty, l.short, l.no_space)

-- A name is accepted if and only if it has 1 to 255 bytes, none of them reserved, and does not end in
-- a space.
pub validate_legal_name-IsLegal : (name : Bytes) → (validate_legal_name name ≡ true) ↔ IsLegal name
validate_legal_name-IsLegal name = (IsLegal-sound name, IsLegal-complete name)
