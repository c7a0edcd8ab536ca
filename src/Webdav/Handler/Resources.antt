-- ===== src/Webdav/Handler/Resources.antt =====
-- pkg/webdav/webdav.go: the handlers that read a resource, change it and make it.
use cloudreve.Prelude.{
  ℕ, zero, suc, ◌^◌, Bool, true, false, Option, none, some, List, [], ◌∷◌, ◌++◌, ◌>>=◌, ℤ, pos,
  negsuc, Bytes, codes, if◌then◌else◌, ◌⊎◌, inl, inr, ltb,
}
use cloudreve.Webdav.Props.{FileInfo}
use cloudreve.Webdav.Timeout.{digits_from}
use cloudreve.Webdav.Handler.Request.{
  Error, err_object_not_exist, err_other, Reply, answer, fail, Request, Output, set_header,
  serve_content, redirect, Preview, no_preview, content, redirect_to, Stage, before_upload,
  after_upload, after_upload_canceled, after_validate_failed, Hook, hook_update_source_name,
  hook_reset_policy, hook_validate_file, hook_validate_capacity, hook_validate_capacity_diff,
  hook_clean_file_content, hook_clear_file_size, hook_cancel_context, generic_after_update,
  hook_delete_temp_file, generic_after_upload, hook_generate_thumb, Upload, FileSystem, Std, Result,
  replied, strip_prefix, is_path_exist,
}
use cloudreve.Webdav.Handler.Files.{done_or}

-- The answer of a handler that goes no further, with what it returns.
abbrev pub written : {S : Type 0} → List Output → S → Result S
written out s = record { reply = answer 0; output = out; store = s }

-- `release, status, err := h.confirmLocks(r, src, dst, fs)`, which gives no error.
unfoldable pub confirm_locks : Request → Bytes → Bytes → Option Reply
confirm_locks r src dst = none

-- `strconv.ParseUint(s, 10, 64)`
unfoldable pub parse_uint : Bytes → Option ℕ
unfolding digits_from
parse_uint [] = none
parse_uint (c ∷ s) = digits_from 0 (c ∷ s) >>= λ n. if ltb n (2 ^ 64) then some n else none

abbrev pub allow_of : Option FileInfo → Bytes
allow_of none = codes "OPTIONS, LOCK, PUT, MKCOL"
allow_of (some fi) =
    if fi.is_dir
    then codes "OPTIONS, LOCK, DELETE, PROPPATCH, COPY, MOVE, UNLOCK, PROPFIND"
    else codes
        "OPTIONS, LOCK, GET, HEAD, POST, DELETE, PROPPATCH, COPY, MOVE, UNLOCK, PROPFIND, PUT"

-- The hooks of PUT on a file, which is copied first when only soft links keep its content.
unfoldable pub update_hooks : Bool → List (Stage × Hook)
update_hooks linked =
    (if linked
      then ((after_upload, hook_update_source_name)
          ∷ (after_upload_canceled, hook_update_source_name)
          ∷ (after_validate_failed, hook_update_source_name)
          ∷ [])
      else [])
    ++ ((before_upload, hook_reset_policy)
        ∷ (before_upload, hook_validate_file)
        ∷ (before_upload, hook_validate_capacity_diff)
        ∷ (after_upload_canceled, hook_clean_file_content)
        ∷ (after_upload_canceled, hook_clear_file_size)
        ∷ (after_upload_canceled, hook_cancel_context)
        ∷ (after_upload, generic_after_update)
        ∷ (after_validate_failed, hook_clean_file_content)
        ∷ (after_validate_failed, hook_clear_file_size)
        ∷ [])

unfoldable pub create_hooks : List (Stage × Hook)
create_hooks =
    (before_upload, hook_validate_file)
    ∷ (before_upload, hook_validate_capacity)
    ∷ (after_upload_canceled, hook_delete_temp_file)
    ∷ (after_upload_canceled, hook_cancel_context)
    ∷ (after_upload, generic_after_upload)
    ∷ (after_upload, hook_generate_thumb)
    ∷ (after_validate_failed, hook_delete_temp_file)
    ∷ []

-- The mode and the hooks of an upload, which may be over a file that there is.
unfoldable pub plan_upload : Option FileInfo → (FileInfo → Bool) → Upload → Upload
unfolding update_hooks create_hooks
plan_upload none is_linked u = record u { hooks = create_hooks }
plan_upload (some file) is_linked u = record u {
  overwrite = true;
  new_source_name = is_linked file;
  model = some file;
  hooks = update_hooks (is_linked file);
}

-- The answer to an upload, with the ETag of what it has stored.
unfoldable pub put_reply : {S : Type 0} → (FileInfo → Bytes) → (Error ⊎ FileInfo) × S → Result S
put_reply etag (inl e, s) = replied (fail 405 e) s
put_reply etag (inr file, s) = record {
  reply = answer 201;
  output = set_header (codes "ETag") (etag file) ∷ [];
  store = s;
}

abbrev pub is_object_not_exist : Error → Bool
is_object_not_exist err_object_not_exist = true
is_object_not_exist e = false

-- `defer fs.Recycle()`
abbrev pub then_recycle : {S : Type 0} → FileSystem S → Result S → Result S
then_recycle fs r = record r { store = fs.recycle r.store }

module _ {S : Type 0} (fs : FileSystem S) (std : Std) (prefix : Bytes)
    (etag : FileInfo → Bytes) where
  unfoldable pub handle_options : Request → S → Result S
  unfolding strip_prefix is_path_exist
  handle_options r s = elim (strip_prefix prefix r.path) [
    | inr reply ↦ replied reply s
    | inl path ↦
        written
          (set_header (codes "Allow") (allow_of (is_path_exist fs path s))
            ∷ set_header (codes "DAV") (codes "1, 2")
            ∷ set_header (codes "MS-Author-Via") (codes "DAV")
            ∷ [])
          s
  ]

  unfoldable pub preview_reply : Preview × S → Result S
  preview_reply (no_preview e, s) = replied (fail (if is_object_not_exist e then 404 else 500) e) s
  preview_reply (content f, s) =
      written (set_header (codes "ETag") (etag f) ∷ serve_content f ∷ []) s
  preview_reply (redirect_to f url, s) =
      written (set_header (codes "ETag") (etag f) ∷ redirect url ∷ []) s

  unfoldable pub handle_get_head_post : Request → S → Result S
  unfolding strip_prefix preview_reply
  handle_get_head_post r s = then_recycle fs (elim (strip_prefix prefix r.path) [
    | inr reply ↦ replied reply s
    | inl path ↦ elim (fs.is_file_exist path s) [
      | none ↦ replied (answer 404) s
      | some file ↦ preview_reply (fs.preview file s)
    ]
  ])

  -- What the path names is deleted as a file, or as a folder.
  unfoldable pub delete_at : Bytes → S → Result S
  unfolding done_or
  delete_at path s = elim (fs.is_file_exist path s) [
    | some file ↦ let r = fs.delete [] (file.id ∷ []) s in replied (done_or 204 405 r.0) r.1
    | none ↦ elim (fs.is_path_exist path s) [
      | some folder ↦ let r = fs.delete (folder.id ∷ []) [] s in replied (done_or 204 405 r.0) r.1
      | none ↦ replied (answer 404) s
    ]
  ]

  unfoldable pub handle_delete : Request → S → Result S
  unfolding strip_prefix confirm_locks delete_at
  handle_delete r s = then_recycle fs (elim (strip_prefix prefix r.path) [
    | inr reply ↦ replied reply s
    | inl path ↦ elim (confirm_locks r path []) [
      | some reply ↦ replied reply s
      | none ↦ delete_at path s
    ]
  ])

  -- The upload that PUT starts.
  unfoldable pub upload_of : Request → Bytes → ℕ → S → Upload
  unfolding plan_upload
  upload_of r path size s =
      plan_upload (fs.is_file_exist path s) (λ file. fs.only_soft_links file s)
        (record {
          mime_type = r.content_type;
          size = size;
          name = std.path_base path;
          virtual_path = std.path_dir path;
          overwrite = false;
          new_source_name = false;
          model = none;
          hooks = [];
        })

  unfoldable pub handle_put : Request → S → Result S
  unfolding strip_prefix confirm_locks parse_uint upload_of put_reply
  handle_put r s = elim (strip_prefix prefix r.path) [
    | inr reply ↦ replied reply s
    | inl path ↦ elim (confirm_locks r path []) [
      | some reply ↦ replied reply s
      | none ↦ elim (parse_uint r.content_length_header) [
        | none ↦ replied (fail 405 err_other) s
        | some size ↦ put_reply etag (fs.upload (upload_of r path size s) s)
      ]
    ]
  ]

  abbrev pub is_positive : ℤ → Bool
  is_positive (pos zero) = false
  is_positive (pos (suc n)) = true
  is_positive (negsuc n) = false

  unfoldable pub make_at : Request → Bytes → S → Result S
  unfolding done_or
  make_at r path s =
      if is_positive r.content_length
      then replied (answer 415) s
      else (let made = fs.create_directory path s in replied (done_or 201 409 made.0) made.1)

  unfoldable pub handle_mkcol : Request → S → Result S
  unfolding strip_prefix confirm_locks make_at
  handle_mkcol r s = then_recycle fs (elim (strip_prefix prefix r.path) [
    | inr reply ↦ replied reply s
    | inl path ↦ elim (confirm_locks r path []) [
      | some reply ↦ replied reply s
      | none ↦ make_at r path s
    ]
  ])
