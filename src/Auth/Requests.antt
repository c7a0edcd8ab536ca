-- ===== src/Auth/Requests.antt =====
-- pkg/auth/auth.go: SignRequest, CheckRequest and what of a request is signed.
use cloudreve.Prelude.{
  ℕ, zero, suc, ◌+◌, Bool, not, ◌&&◌, Option, none, some, List, [], ◌∷◌, ◌++◌, ℤ, pos, negsuc,
  to_int64, Bytes, codes, eqb, contains, has_prefix, if◌then◌else◌, Assoc, find, put, bytes_eq,
  sort_strings,
}
use cloudreve.Webdav.Handler.Request.{trim_prefix}
use cloudreve.Auth.{AuthError, err_auth_header_missing, HmacAuth, sign, check}

pub record HttpRequest : Type 0 where
  pub path : Bytes
  pub header : Assoc Bytes (List Bytes)
  pub body : Bytes

-- http.CanonicalHeaderKey, and NewRequestSignString of a path, a header and a body.
pub record Packages : Type 0 where
  pub canonical : Bytes → Bytes
  pub request_sign_string : Bytes → Bytes → Bytes → Bytes

abbrev pub first_or_nil : Option (List Bytes) → Bytes
first_or_nil none = []
first_or_nil (some []) = []
first_or_nil (some (v ∷ vs)) = v

-- `r.Header.Get(k)`
unfoldable pub get_header : Packages → Bytes → Assoc Bytes (List Bytes) → Bytes
get_header std k header = first_or_nil (find (std.canonical k) header)

unfoldable pub is_signed : Bytes → Bool
is_signed k = has_prefix k (codes "X-Cr-") && not (eqb k (codes "X-Cr-Filename"))

-- The entries to sign, for the keys of the header in the order in which `range` gives them.
unfoldable pub signed_header : Packages → Assoc Bytes (List Bytes) → List Bytes → List Bytes
unfolding is_signed get_header
signed_header std header [] = []
signed_header std header (k ∷ keys) =
    let more = signed_header std header keys in
    if is_signed k then (k ++ (b'=' ∷ get_header std k header)) ∷ more else more

-- `strings.Join(texts, "&")`
unfoldable pub join : List Bytes → Bytes
join [] = []
join (s ∷ []) = s
join (s ∷ t ∷ texts) = s ++ (b'&' ∷ join (t ∷ texts))

unfoldable pub signed_body : HttpRequest → Bytes
unfolding contains
signed_body r = if contains r.path (codes "/api/v3/slave/upload/") then [] else r.body

unfoldable pub get_sign_content : Packages → List Bytes → HttpRequest → Bytes
unfolding signed_header join signed_body sort_strings
get_sign_content std keys r =
    std.request_sign_string r.path (join (sort_strings (signed_header std r.header keys)))
      (signed_body r)

abbrev pub authorization : Bytes
authorization = codes "Authorization"

abbrev pub bearer : Bytes
bearer = codes "Bearer "

-- A positive number of seconds is counted from now.
unfoldable pub expires_at : ℕ → ℤ → ℤ
expires_at now (pos zero) = pos zero
expires_at now (pos (suc n)) = to_int64 (suc n + now)
expires_at now (negsuc n) = negsuc n

module _ (std : Packages) (mac : Bytes → Bytes → Bytes) (auth : HmacAuth) where
  -- With the keys in their order, as for `check_request`.
  unfoldable pub sign_request : List Bytes → ℕ → HttpRequest → ℤ → HttpRequest
  unfolding get_sign_content expires_at sign
  sign_request keys now r expires = record r {
    header =
        put authorization
          ((bearer ++ sign mac auth (get_sign_content std keys r) (expires_at now expires)) ∷ [])
          r.header;
  }

  -- The error, with the request, in whose header the prefix is cut off.
  unfoldable pub check_request : List Bytes → ℤ → HttpRequest → Option AuthError × HttpRequest
  unfolding get_sign_content check
  check_request keys now r = elim (find authorization r.header) [
    | none ↦ (some err_auth_header_missing, r)
    | some values ↦ elim values [
      | [] ↦ (some err_auth_header_missing, r)
      | value ∷ others ↦
          let text = trim_prefix value bearer in
          let cut = record r { header = put authorization (text ∷ others) r.header } in
          (check mac auth now (get_sign_content std keys cut) text, cut)
    ]
  ]
