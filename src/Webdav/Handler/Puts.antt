-- ===== src/Webdav/Handler/Puts.antt =====
-- What PUT hands to the upload of the file system.
use cloudreve.Prelude.{
  ℕ, ◌^◌, ◌<◌, ◌≡◌, refl, arith, Bool, true, false, Option, none, some, List, [], ◌∷◌, ◌>>=◌, Bytes,
  ltb, ◌⊎◌, inl, inr, Option-cases, Bool-cases,
}
use cloudreve.Webdav.Props.{FileInfo}
use cloudreve.Webdav.Timeout.{digits_from}
use cloudreve.Webdav.Handler.Request.{
  err_other, Reply, fail, Request, Stage, before_upload, after_upload, after_validate_failed, Hook,
  hook_validate_file, hook_validate_capacity, hook_validate_capacity_diff, hook_clean_file_content,
  hook_delete_temp_file, generic_after_upload, generic_after_update, Upload, FileSystem, Std,
  Result, replied, strip_prefix,
}
use cloudreve.Webdav.Handler.Resources.{
  parse_uint, update_hooks, create_hooks, confirm_locks, put_reply, plan_upload, upload_of,
  handle_put,
}
use cloudreve.Webdav.Handler.Statuses.{Sum-cases}
use cloudreve.Webdav.Handler.Refused.{status-strip_prefix_refused}

-- A hook that a stage runs.
data Runs : Stage → Hook → List (Stage × Hook) → Type 0 where
  here : {stage : Stage} {h : Hook} {hs : List (Stage × Hook)} → Runs stage h ((stage, h) ∷ hs)
  later :
      {stage : Stage} {h : Hook} {p : Stage × Hook} {hs : List (Stage × Hook)}
      → Runs stage h hs
      → Runs stage h (p ∷ hs)

-- What holds of an upload, given the file that has its path, if there is one.
pub IsPlanned : Option FileInfo → Upload → Type 0
IsPlanned none u =
    (u.overwrite ≡ false)
    × (u.model ≡ none)
    × Runs before_upload hook_validate_file u.hooks
    × Runs before_upload hook_validate_capacity u.hooks
    × Runs after_validate_failed hook_delete_temp_file u.hooks
    × Runs after_upload generic_after_upload u.hooks
IsPlanned (some file) u =
    (u.overwrite ≡ true)
    × (u.model ≡ some file)
    × Runs before_upload hook_validate_file u.hooks
    × Runs before_upload hook_validate_capacity_diff u.hooks
    × Runs after_validate_failed hook_clean_file_content u.hooks
    × Runs after_upload generic_after_update u.hooks

parse_uint_bound : (s : Bytes) (n : ℕ) → parse_uint s ≡ some n → n < 2 ^ 64
unfolding parse_uint
parse_uint_bound [] n h = let no_way : ⊥ = cc in elim no_way [ ]
parse_uint_bound (c ∷ s) n h = elim (Option-cases (digits_from 0 (c ∷ s))) [
  | inl e ↦
      let lost : parse_uint (c ∷ s) ≡ none = rw (parse_uint, e, ◌>>=◌) refl in
      let no_way : ⊥ = cc in elim no_way [ ]
  | inr (m, e) ↦ elim (Bool-cases (ltb m (2 ^ 64))) [
    | inr f ↦
        let lost : parse_uint (c ∷ s) ≡ none = rw (parse_uint, e, ◌>>=◌, f) refl in
        let no_way : ⊥ = cc in elim no_way [ ]
    | inl f ↦
        let read : parse_uint (c ∷ s) ≡ some m = rw (parse_uint, e, ◌>>=◌, f) refl in
        let same : m ≡ n = cc in ground (arith, same, f)
  ]
]

update_hooks-Run :
    (linked : Bool)
    → Runs before_upload hook_validate_file (update_hooks linked)
      × Runs before_upload hook_validate_capacity_diff (update_hooks linked)
      × Runs after_validate_failed hook_clean_file_content (update_hooks linked)
      × Runs after_upload generic_after_update (update_hooks linked)
unfolding update_hooks
update_hooks-Run true = (
  later (later (later (later here))),
  later (later (later (later (later here)))),
  later (later (later (later (later (later (later (later (later (later here))))))))),
  later (later (later (later (later (later (later (later (later here)))))))),
)
update_hooks-Run false = (
  later here,
  later (later here),
  later (later (later (later (later (later (later here)))))),
  later (later (later (later (later (later here))))),
)

plan_upload-IsPlanned :
    (file : Option FileInfo) (is_linked : FileInfo → Bool) (u : Upload)
    → u.overwrite ≡ false
    → u.model ≡ none
    → IsPlanned file (plan_upload file is_linked u)
unfolding plan_upload IsPlanned create_hooks
plan_upload-IsPlanned none is_linked u create empty = (
  create,
  empty,
  here,
  later here,
  later (later (later (later (later (later here))))),
  later (later (later (later here))),
)
plan_upload-IsPlanned (some file) is_linked u create empty =
    let hooks = update_hooks-Run (is_linked file) in
    (refl, refl, hooks.0, hooks.1, hooks.2, hooks.3)

plan_upload-size :
    (file : Option FileInfo) (is_linked : FileInfo → Bool) (u : Upload)
    → (plan_upload file is_linked u).size ≡ u.size
unfolding plan_upload
plan_upload-size none is_linked u = refl
plan_upload-size (some file) is_linked u = refl

module _ {S : Type 0} (fs : FileSystem S) (std : Std) (prefix : Bytes)
    (etag : FileInfo → Bytes) where
  -- The results of PUT: a refusal that changes nothing, or those of an upload.
  pub data IsPut (r : Request) (s : S) : Result S → Type 0 where
    refuses :
        (reply : Reply) → (reply.status ≡ 404) ⊎ (reply.status ≡ 405) → IsPut r s (replied reply s)
    uploads :
        (path : Bytes) (u : Upload)
        → strip_prefix prefix r.path ≡ inl path
        → u.size < 2 ^ 64
        → IsPlanned (fs.is_file_exist path s) u
        → IsPut r s (put_reply etag (fs.upload u s))

  -- PUT either refuses the request and changes nothing, or makes one upload, of a size below 2^64,
  -- that validates the file and the capacity and cleans up after a failed validation, over the file
  -- that there is and only then, and answers with what becomes of it.
  pub handle_put-IsPut : (r : Request) (s : S) → IsPut r s (handle_put fs std prefix etag r s)
  unfolding handle_put confirm_locks upload_of
  handle_put-IsPut r s = elim (Sum-cases (strip_prefix prefix r.path)) [
    | inr (reply, e) ↦
        rw (handle_put, e) (refuses reply (inl (status-strip_prefix_refused prefix r.path reply e)))
    | inl (path, e) ↦ elim (Option-cases (parse_uint r.content_length_header)) [
      | inl f ↦ rw (handle_put, e, f) (refuses (fail 405 err_other) (inr refl))
      | inr (size, f) ↦
          let u : Upload = record {
            mime_type = r.content_type;
            size = size;
            name = std.path_base path;
            virtual_path = std.path_dir path;
            overwrite = false;
            new_source_name = false;
            model = none;
            hooks = [];
          } in
          let file = fs.is_file_exist path s in
          let is_linked = fs.only_soft_links in
          rw (handle_put, e, f)
            (uploads path (upload_of fs std prefix etag r path size s) e
              (rw (plan_upload-size file (λ g. is_linked g s) u)
                (parse_uint_bound r.content_length_header size f))
              (plan_upload-IsPlanned file (λ g. is_linked g s) u refl refl))
    ]
  ]
