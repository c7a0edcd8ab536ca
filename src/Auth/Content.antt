-- ===== src/Auth/Content.antt =====
-- The header that carries the signature is not signed, so that a signed request is accepted.
use mathlib.Core.List.{Permᴰ}
use mathlib.Core.List.Permᴰ
use cloudreve.Prelude.{
  ℕ, ◌≡◌, refl, sym, ap, ◌∙◌, true, false, none, some, List, [], ◌∷◌, ◌++◌, ℤ, Bytes, eqb, eqb→≡,
  eqb_refl, has_prefix, if◌then◌else◌, Bool-cases, inl, inr, Assoc, find, put, erase, bytes_eq,
  sort_strings, sort_strings-perm, find-put_same, find-put_other,
}
use cloudreve.Webdav.Handler.Request.{trim_prefix}
use cloudreve.Auth.{err_expired, HmacAuth, is_expired, sign, check}
use cloudreve.Auth.Signed.{in_int64, check-sign}
use cloudreve.Auth.Requests.{
  HttpRequest, Packages, get_header, is_signed, signed_header, get_sign_content, authorization,
  bearer, expires_at, sign_request, check_request,
}

-- CanonicalHeaderKey changes nothing but the case of letters, so that a key that begins with X-Cr-
-- does not become Authorization.
unfoldable pub KeepsPrefix : Packages → Type 0
KeepsPrefix std = (k : Bytes) → is_signed k ≡ true → eqb (std.canonical k) authorization ≡ false

-- The keys of a header, in an order in which `range` may give them: any.
unfoldable pub keys_of : Assoc Bytes (List Bytes) → List Bytes
keys_of [] = []
keys_of ((k, vs) ∷ header) = k ∷ keys_of header

unfoldable pub IsRange : List Bytes → Assoc Bytes (List Bytes) → Type 0
IsRange keys header = Permᴰ keys (keys_of header)

signed_header-perm :
    (std : Packages) (header : Assoc Bytes (List Bytes)) {keys keys' : List Bytes}
    → Permᴰ keys keys'
    → Permᴰ (signed_header std header keys) (signed_header std header keys')
unfolding signed_header
signed_header-perm std header Permᴰ.nil = Permᴰ.nil
signed_header-perm std header (Permᴰ.cons {b = b} e d) =
    let rest = signed_header-perm std header d in
    elim (Bool-cases (is_signed b)) [
      | inl f ↦ rw (e, f) (Permᴰ.cons refl rest)
      | inr f ↦ rw (e, f) rest
    ]
signed_header-perm std header (Permᴰ.swap {a' = a} {b' = b} {l = l} e d) =
    elim (Bool-cases (is_signed a)) [
      | inl f ↦ elim (Bool-cases (is_signed b)) [
        | inl g ↦ rw (e, d, f, g) (Permᴰ.swap refl refl)
        | inr g ↦ rw (e, d, f, g) (Permᴰ.refl _)
      ]
      | inr f ↦ elim (Bool-cases (is_signed b)) [
        | inl g ↦ rw (e, d, f, g) (Permᴰ.refl _)
        | inr g ↦ rw (e, d, f, g) (Permᴰ.refl (signed_header std header l))
      ]
    ]
signed_header-perm std header (Permᴰ.trans d d') =
    Permᴰ.trans (signed_header-perm std header d) (signed_header-perm std header d')

module _ (std : Packages) (header : Assoc Bytes (List Bytes)) where
  signed_header-put :
      (keeps : KeepsPrefix std) (value : List Bytes) (keys : List Bytes)
      → signed_header std (put authorization value header) keys ≡ signed_header std header keys
  unfolding signed_header get_header KeepsPrefix
  signed_header-put keeps value [] = refl
  signed_header-put keeps value (k ∷ keys) = elim (Bool-cases (is_signed k)) [
    | inr e ↦ rw e (signed_header-put keeps value keys)
    | inl e ↦
        rw
          (
            e,
            find-put_other (std.canonical k) authorization value header (keeps k e),
            signed_header-put keeps value keys,
          )
          refl
  ]

  not_signed : (k : Bytes) → eqb authorization k ≡ true → is_signed k ≡ false
  not_signed k e =
      let same : authorization ≡ k = eqb→≡ authorization k e in
      rw (sym same) (unfold is_signed has_prefix in refl)

  signed_header-erase :
      (rest : Assoc Bytes (List Bytes))
      → signed_header std header (keys_of (erase authorization rest))
        ≡ signed_header std header (keys_of rest)
  unfolding signed_header erase keys_of
  signed_header-erase [] = refl
  signed_header-erase ((k, vs) ∷ rest) = elim (Bool-cases (eqb authorization k)) [
    | inl e ↦ rw (e, not_signed k e) (signed_header-erase rest)
    | inr e ↦ elim (Bool-cases (is_signed k)) [
      | inl f ↦ rw (e, f, signed_header-erase rest) refl
      | inr f ↦ rw (e, f) (signed_header-erase rest)
    ]
  ]

  -- The header Authorization adds nothing to sign.
  signed_header-keys_of :
      (value : List Bytes)
      → signed_header std header (keys_of (put authorization value header))
        ≡ signed_header std header (keys_of header)
  unfolding signed_header put keys_of
  signed_header-keys_of value =
      rw (not_signed authorization (eqb_refl authorization)) (signed_header-erase header)

  -- The entries to sign are the same, once sorted, for a header to which Authorization is added, in
  -- whatever order the two headers are gone through.
  sorted-put :
      (keys keys' : List Bytes) (value : List Bytes)
      → IsRange keys header
      → IsRange keys' (put authorization value header)
      → sort_strings (signed_header std header keys') ≡ sort_strings (signed_header std header keys)
  unfolding IsRange
  sorted-put keys keys' value before after =
      sort_strings-perm (signed_header-perm std header after)
      ∙ ap sort_strings (signed_header-keys_of value)
      ∙ sym (sort_strings-perm (signed_header-perm std header before))

module _ (std : Packages) (keeps : KeepsPrefix std) (r : HttpRequest) where
  -- What is signed of a request does not depend on the header Authorization, nor on the orders.
  get_sign_content-put :
      (keys keys' : List Bytes) (value value' : List Bytes)
      → IsRange keys r.header
      → IsRange keys' (put authorization value r.header)
      → get_sign_content std keys'
          (record r { header = put authorization value' (put authorization value r.header) })
        ≡ get_sign_content std keys r
  unfolding get_sign_content
  get_sign_content-put keys keys' value value' before after =
      rw
        (
          get_sign_content,
          signed_header-put std (put authorization value r.header) keeps value' keys',
          signed_header-put std r.header keeps value keys',
          sorted-put std r.header keys keys' value before after,
        )
        refl

trim_prefix-bearer : (text : Bytes) → trim_prefix (bearer ++ text) bearer ≡ text
trim_prefix-bearer text = unfold has_prefix in refl

module _ (std : Packages) (keeps : KeepsPrefix std) (mac : Bytes → Bytes → Bytes)
    (auth : HmacAuth) where
  check_found :
      (keys : List Bytes) (now : ℤ) (r : HttpRequest) (value : Bytes)
      → find authorization r.header ≡ some (value ∷ [])
      → (check_request std mac auth keys now r).0
        ≡ check mac auth now
            (get_sign_content std keys
              (record r { header = put authorization (trim_prefix value bearer ∷ []) r.header }))
            (trim_prefix value bearer)
  unfolding check_request
  check_found keys now r value e = rw (check_request, e) refl

  -- A request that SignRequest has signed is accepted by CheckRequest until its time, an int64, is
  -- over, and after it the answer is that it has expired, in whatever orders the two go through the
  -- header, where the canonical form of no signed key is Authorization.
  pub check_request-sign_request :
      (keys keys' : List Bytes) (now : ℕ) (later : ℤ) (r : HttpRequest) (expires : ℤ)
      → in_int64 (expires_at now expires) ≡ true
      → IsRange keys r.header
      → IsRange keys' (sign_request std mac auth keys now r expires).header
      → (check_request std mac auth keys' later (sign_request std mac auth keys now r expires)).0
        ≡ (if is_expired (expires_at now expires) later then some err_expired else none)
  unfolding sign_request
  check_request-sign_request keys keys' now later r expires fits before after =
      let content = get_sign_content std keys r in
      let text = sign mac auth content (expires_at now expires) in
      let value = (bearer ++ text) ∷ [] in
      let cut = trim_prefix (bearer ++ text) bearer in
      let signed : HttpRequest = record r { header = put authorization value r.header } in
      check_found keys' later signed (bearer ++ text) (find-put_same authorization value r.header)
      ∙ ap (λ c. check mac auth later c cut)
          (get_sign_content-put std keeps r keys keys' value (cut ∷ []) before after)
      ∙ ap (check mac auth later content) (trim_prefix-bearer text)
      ∙ check-sign mac auth later content (expires_at now expires) fits
