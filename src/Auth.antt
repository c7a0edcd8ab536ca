-- ===== src/Auth.antt =====
-- pkg/auth/hmac.go and auth.go: the signatures of HMACAuth and the requests that carry them. HMAC with SHA-256 and base64 are one function of the
-- key and the text, an argument, and times are seconds.
pub mod Signed
pub mod Requests
pub mod Content
mod Tests
use cloudreve.Prelude.{
  ℕ, zero, suc, ◌^◌, Bool, true, false, not, ◌&&◌, ◌||◌, Option, none, some, List, [], ◌∷◌, ◌++◌, ℤ,
  pos, negsuc, less, Bytes, eqb, format_uint, ltb, leb, if◌then◌else◌, ◌==◌, ◌>>=◌,
}
use cloudreve.Webdav.Timeout.{digits_from, starts_with_digit}

pub data AuthError : Type 0 where
  err_auth_failed err_auth_header_missing err_expires_missing err_expired : AuthError

pub record HmacAuth : Type 0 where
  pub secret_key : Bytes

-- `strconv.FormatInt(n, 10)`
unfoldable pub format_int : ℤ → Bytes
format_int (pos n) = format_uint n
format_int (negsuc n) = b'-' ∷ format_uint (suc n)

abbrev pub negate : ℕ → ℤ
negate zero = pos zero
negate (suc n) = negsuc n

abbrev pub int_of : Bool → ℕ → Option ℤ
int_of true n = if leb n (2 ^ 63) then some (negate n) else none
int_of false n = if ltb n (2 ^ 63) then some (pos n) else none

abbrev pub digits_of : Bytes → Option ℕ
digits_of s = if starts_with_digit s then digits_from 0 s else none

-- `strconv.ParseInt(s, 10, 64)`, where a text may begin with a sign.
unfoldable pub parse_int64 : Bytes → Option ℤ
unfolding digits_from
parse_int64 [] = none
parse_int64 (c ∷ s) =
    if c == b'-'
    then (digits_of s >>= λ n. int_of true n)
    else (if c == b'+'
        then digits_of s >>= (λ n. int_of false n)
        else digits_of (c ∷ s) >>= (λ n. int_of false n))

-- The last of the parts of a text between colons, after the bytes of it that have been read.
unfoldable pub last_part : Bytes → Bytes → Bytes
last_part part [] = part
last_part part (c ∷ s) =
    let ends = last_part [] s in
    let goes_on = last_part (part ++ (c ∷ [])) s in if c == b':' then ends else goes_on

abbrev pub is_zero : ℤ → Bool
is_zero (pos n) = n == 0
is_zero (negsuc n) = false

-- `expires < time.Now().Unix() && expires != 0`
abbrev pub is_expired : ℤ → ℤ → Bool
is_expired expires now = less expires now && not (is_zero expires)

module _ (mac : Bytes → Bytes → Bytes) (auth : HmacAuth) where
  unfoldable pub sign : Bytes → ℤ → Bytes
  unfolding format_int
  sign body expires =
      mac auth.secret_key (body ++ (b':' ∷ format_int expires)) ++ (b':' ∷ format_int expires)

  abbrev pub check_expires : ℤ → Bytes → Bytes → ℤ → Option AuthError
  check_expires now body text expires =
      if is_expired expires now
      then some err_expired
      else (if not (eqb (sign body expires) text) then some err_auth_failed else none)

  -- The signature is checked for a body, and `none` is no error.
  unfoldable pub check : ℤ → Bytes → Bytes → Option AuthError
  unfolding last_part parse_int64 sign
  check now body text = elim (last_part [] text) [
    | [] ↦ some err_expires_missing
    | c ∷ s ↦ elim (parse_int64 (c ∷ s)) [
      | none ↦ some err_auth_failed
      | some expires ↦ check_expires now body text expires
    ]
  ]
