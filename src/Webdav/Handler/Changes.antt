-- ===== src/Webdav/Handler/Changes.antt =====
-- The answers of OPTIONS, GET, DELETE, PUT and MKCOL.
use cloudreve.Prelude.{refl, [], ◌∷◌, Bytes, ◌⊎◌, inl, inr, Bool-cases, Option-cases}
use cloudreve.Webdav.Props.{FileInfo}
use cloudreve.Webdav.Handler.Request.{
  Error, err_other, answer, fail, Request, Preview, no_preview, content, redirect_to, FileSystem,
  Std, replied, strip_prefix,
}
use cloudreve.Webdav.Handler.Resources.{
  is_object_not_exist, confirm_locks, parse_uint, put_reply, handle_options, preview_reply,
  handle_get_head_post, delete_at, handle_delete, upload_of, handle_put, is_positive, make_at,
  handle_mkcol,
}
use cloudreve.Webdav.Handler.Serve.{on_options, on_get_head_post, on_delete, on_put, on_mkcol}
use cloudreve.Webdav.Handler.Refused.{one_of, has_answer}
use cloudreve.Webdav.Handler.Statuses.{
  Fits, Sum-cases, answers, refusals, recycled-Fits, replied-Fits, refused-Fits, changed-Fits,
  done_or-Fits,
}

module _ {S : Type 0} (fs : FileSystem S) (std : Std) (prefix : Bytes) (etag : FileInfo → Bytes)
    (r : Request) (s : S) where
  delete_at-Fits : (path : Bytes) → Fits on_delete s (delete_at fs std prefix etag path s)
  unfolding delete_at answers refusals has_answer one_of
  delete_at-Fits path = elim (Option-cases (fs.is_file_exist path s)) [
    | inr (file, e) ↦
        let d = fs.delete [] (file.id ∷ []) s in
        rw (delete_at, e) (done_or-Fits s on_delete 204 405 d.0 d.1 refl refl refl refl)
    | inl e ↦ elim (Option-cases (fs.is_path_exist path s)) [
      | inr (folder, f) ↦
          let d = fs.delete (folder.id ∷ []) [] s in
          rw (delete_at, e, f) (done_or-Fits s on_delete 204 405 d.0 d.1 refl refl refl refl)
      | inl f ↦ rw (delete_at, e, f) (replied-Fits s on_delete (answer 404) refl)
    ]
  ]

  pub handle_delete-Fits : Fits on_delete (fs.recycle s) (handle_delete fs std prefix etag r s)
  unfolding handle_delete confirm_locks answers has_answer
  handle_delete-Fits = recycled-Fits s fs (elim (Sum-cases (strip_prefix prefix r.path)) [
    | inl (path, e) ↦ rw (handle_delete, e) (delete_at-Fits path)
    | inr (reply, e) ↦ rw (handle_delete, e) (refused-Fits s prefix on_delete r.path reply refl e)
  ])

  pub handle_options-Fits : Fits on_options s (handle_options fs std prefix etag r s)
  unfolding handle_options answers has_answer
  handle_options-Fits = elim (Sum-cases (strip_prefix prefix r.path)) [
    | inl (path, e) ↦ rw (handle_options, e) (record { allowed = refl; kept = λ f. refl })
    | inr (reply, e) ↦ rw (handle_options, e) (refused-Fits s prefix on_options r.path reply refl e)
  ]

  preview_reply-Fits :
      (p : Preview) (s' : S) → Fits on_get_head_post s (preview_reply fs std prefix etag (p, s'))
  unfolding preview_reply answers refusals has_answer one_of
  preview_reply-Fits (no_preview e) s' = elim (Bool-cases (is_object_not_exist e)) [
    | inl f ↦ rw f (changed-Fits s on_get_head_post (replied (fail 404 e) s') refl refl)
    | inr f ↦ rw f (changed-Fits s on_get_head_post (replied (fail 500 e) s') refl refl)
  ]
  preview_reply-Fits (content f) s' =
      changed-Fits s on_get_head_post (preview_reply fs std prefix etag (content f, s')) refl refl
  preview_reply-Fits (redirect_to f url) s' =
      changed-Fits s on_get_head_post (preview_reply fs std prefix etag (redirect_to f url, s'))
        refl refl

  pub handle_get_head_post-Fits :
      Fits on_get_head_post (fs.recycle s) (handle_get_head_post fs std prefix etag r s)
  unfolding handle_get_head_post answers has_answer
  handle_get_head_post-Fits = recycled-Fits s fs (elim (Sum-cases (strip_prefix prefix r.path)) [
    | inl (path, e) ↦ elim (Option-cases (fs.is_file_exist path s)) [
      | inl f ↦ rw (handle_get_head_post, e, f) (replied-Fits s on_get_head_post (answer 404) refl)
      | inr (file, f) ↦
          let v = fs.preview file s in rw (handle_get_head_post, e, f) (preview_reply-Fits v.0 v.1)
    ]
    | inr (reply, e) ↦
        rw (handle_get_head_post, e) (refused-Fits s prefix on_get_head_post r.path reply refl e)
  ])

  put_reply-Fits : (u : Error ⊎ FileInfo) (s' : S) → Fits on_put s (put_reply etag (u, s'))
  unfolding put_reply answers refusals has_answer one_of
  put_reply-Fits (inl e) s' = changed-Fits s on_put (replied (fail 405 e) s') refl refl
  put_reply-Fits (inr file) s' = changed-Fits s on_put (put_reply etag (inr file, s')) refl refl

  pub handle_put-Fits : Fits on_put s (handle_put fs std prefix etag r s)
  unfolding handle_put confirm_locks answers has_answer
  handle_put-Fits = elim (Sum-cases (strip_prefix prefix r.path)) [
    | inl (path, e) ↦ elim (Option-cases (parse_uint r.content_length_header)) [
      | inl f ↦ rw (handle_put, e, f) (replied-Fits s on_put (fail 405 err_other) refl)
      | inr (size, f) ↦
          let u = fs.upload (upload_of fs std prefix etag r path size s) s in
          rw (handle_put, e, f) (put_reply-Fits u.0 u.1)
    ]
    | inr (reply, e) ↦ rw (handle_put, e) (refused-Fits s prefix on_put r.path reply refl e)
  ]

  make_at-Fits : (path : Bytes) → Fits on_mkcol s (make_at fs std prefix etag r path s)
  unfolding make_at answers refusals has_answer one_of
  make_at-Fits path = elim (Bool-cases (is_positive fs std prefix etag r.content_length)) [
    | inl e ↦ rw (make_at, e) (replied-Fits s on_mkcol (answer 415) refl)
    | inr e ↦
        let d = fs.create_directory path s in
        rw (make_at, e) (done_or-Fits s on_mkcol 201 409 d.0 d.1 refl refl refl refl)
  ]

  pub handle_mkcol-Fits : Fits on_mkcol (fs.recycle s) (handle_mkcol fs std prefix etag r s)
  unfolding handle_mkcol confirm_locks answers has_answer
  handle_mkcol-Fits = recycled-Fits s fs (elim (Sum-cases (strip_prefix prefix r.path)) [
    | inl (path, e) ↦ rw (handle_mkcol, e) (make_at-Fits path)
    | inr (reply, e) ↦ rw (handle_mkcol, e) (refused-Fits s prefix on_mkcol r.path reply refl e)
  ])
