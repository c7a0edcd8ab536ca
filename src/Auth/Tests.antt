-- ===== src/Auth/Tests.antt =====
-- Signatures by a function that gives the key again.
use mathlib.Core.List.Permᴰ
use cloudreve.Prelude.{
  List, contains, ◌≡◌, refl, false, none, some, [], ◌∷◌, ◌++◌, ℤ, pos, negsuc, Bytes, codes, eqb,
  eqb→≡, has_prefix, find, put, erase, bytes_eq, Bool-cases, inl, inr, if◌then◌else◌, decimal,
  format_uint,
}
use cloudreve.Webdav.Timeout.{digits_from}
use cloudreve.Auth.{
  HmacAuth, err_expired, sign, check, is_expired, format_int, parse_int64, last_part,
}
use cloudreve.Auth.Signed.{check-sign, check_sound}
use cloudreve.Auth.Requests.{
  HttpRequest, Packages, get_header, is_signed, signed_header, join, signed_body, get_sign_content,
  authorization, expires_at, sign_request, check_request,
}
use cloudreve.Auth.Content.{KeepsPrefix, keys_of, IsRange, check_request-sign_request}

abbrev key_only : Bytes → Bytes → Bytes
key_only key text = key

abbrev auth : HmacAuth
auth = record { secret_key = codes "k:1" }

signed : sign key_only auth (codes "/a") (negsuc 4) ≡ codes "k:1:-5"
unfolding sign format_int format_uint decimal
signed = refl

check-sign_example :
    check key_only auth (pos 7) (codes "/a") (sign key_only auth (codes "/a") (pos 5))
    ≡ (if is_expired (pos 5) (pos 7) then some err_expired else none)
check-sign_example = check-sign key_only auth (pos 7) (codes "/a") (pos 5) refl

check_sound_example :
    (expires : ℤ) × (codes "k:1:9" ≡ sign key_only auth (codes "/a") expires)
    × (is_expired expires (pos 7) ≡ false)
unfolding check sign last_part parse_int64 digits_from eqb format_int format_uint decimal
check_sound_example = check_sound key_only auth (pos 7) (codes "/a") (codes "k:1:9") refl

abbrev plain : Packages
plain = record { canonical = λ k. k; request_sign_string = λ p h b. p ++ (h ++ b) }

plain-KeepsPrefix : KeepsPrefix plain
unfolding KeepsPrefix is_signed has_prefix eqb
plain-KeepsPrefix k signed_key = elim (Bool-cases (eqb k authorization)) [
  | inr e ↦ e
  | inl e ↦
      let same : k ≡ authorization = eqb→≡ k authorization e in
      let other : is_signed k ≡ false = rw same refl in let no_way : ⊥ = cc in elim no_way [ ]
]

abbrev request : HttpRequest
request = record {
  path = codes "/p";
  header =
      (codes "X-Cr-A", codes "1" ∷ [])
      ∷ (codes "Accept", codes "2" ∷ [])
      ∷ (codes "X-Cr-Filename", codes "3" ∷ [])
      ∷ [];
  body = codes "b";
}

-- The header X-Cr-A is signed and the others are not.
content_of_request :
    get_sign_content plain (codes "X-Cr-A" ∷ codes "Accept" ∷ codes "X-Cr-Filename" ∷ []) request
    ≡ codes "/pX-Cr-A=1b"
unfolding get_sign_content signed_header get_header is_signed has_prefix eqb join signed_body
    contains find
content_of_request = refl

-- The header is gone through backwards by SignRequest, and in its order by CheckRequest.
abbrev keys : List Bytes
keys = codes "X-Cr-A" ∷ codes "X-Cr-B" ∷ []

abbrev keys' : List Bytes
keys' = codes "Authorization" ∷ codes "X-Cr-B" ∷ codes "X-Cr-A" ∷ []

abbrev two_headers : HttpRequest
two_headers = record {
  path = codes "/p";
  header = (codes "X-Cr-B", codes "2" ∷ []) ∷ (codes "X-Cr-A", codes "1" ∷ []) ∷ [];
  body = codes "b";
}

check_request-sign_request_example :
    (check_request plain key_only auth keys'
      (pos 200)
      (sign_request plain key_only auth keys 100 two_headers (pos 60))).0
    ≡ (if is_expired (expires_at 100 (pos 60)) (pos 200) then some err_expired else none)
unfolding expires_at IsRange keys_of sign_request put erase eqb
check_request-sign_request_example =
    check_request-sign_request plain plain-KeepsPrefix key_only auth keys keys' 100 (pos 200)
      two_headers (pos 60) refl (Permᴰ.swap refl refl) (Permᴰ.refl _)
