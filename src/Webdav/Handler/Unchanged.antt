-- ===== src/Webdav/Handler/Unchanged.antt =====
-- The answers that each method answers with, and those of them that come with no change.
use cloudreve.Prelude.{
  Option, none, some, List, ◌≡◌, refl, ap, arith, Bool, true, not, [], ◌∷◌, Bytes, inl, inr,
  Bool-cases, Option-cases, eqb, codes, ℤ,
}
use cloudreve.Webdav.Props.{FileInfo, Env, patch}
use cloudreve.Webdav.Timeout.{parse_timeout}
use cloudreve.Webdav.Handler.Request.{
  Error, Output, tree, err_invalid_depth, err_invalid_timeout, err_unsupported_method, answer, fail,
  Request, write_text, FileSystem, Std, strip_prefix, is_path_exist,
}
use cloudreve.Webdav.Handler.Replies.{
  write_lock_info, write_response, new_writer, make_propstat_response, close,
}
use cloudreve.Webdav.Handler.Bodies.{read_propfind, read_proppatch}
use cloudreve.Webdav.Handler.Files.{
  folder_ids, file_ids, move_step, rename_step, move_files, copy_files,
}
use cloudreve.Webdav.Handler.Resources.{confirm_locks}
use cloudreve.Webdav.Handler.Transfers.{
  depth_of, is_infinite, is_zero_or_infinite, is_invalid, copy_move_paths, copy_or_move,
  handle_copy_move, handle_lock,
}
use cloudreve.Webdav.Handler.Serve.{
  handle, etag_in, Method, on_options, on_get_head_post, on_delete, on_put, on_mkcol, on_copy_move,
  on_lock, on_unlock, on_propfind, on_proppatch, on_unsupported,
}
use cloudreve.Webdav.Handler.Refused.{
  one_of, Answer, without_error, with_error, answer_of, has_answer, path_errors,
  read_propfind_refused, read_proppatch_refused, copy_move_paths_refused,
}
use cloudreve.Webdav.Handler.Statuses.{
  Fits, Sum-cases, answers, refusals, recycled-Fits, replied-Fits, written-Fits, refused-Fits,
  done_or-Fits,
}
use cloudreve.Webdav.Handler.Changes.{
  handle_options-Fits, handle_get_head_post-Fits, handle_delete-Fits, handle_put-Fits,
  handle_mkcol-Fits,
}
use cloudreve.Webdav.Handler.Listing.{
  stop_at, multistatus_reply, visit_resource, list_at, handle_propfind, patch_at, handle_proppatch,
}
use cloudreve.Webdav.Lock.State.{MemLs}
use cloudreve.Webdav.Handler.Files.{WalkError, stop, skip_dir, walk_fs}

wider : (a : Answer) → has_answer path_errors a ≡ true → has_answer (answers on_copy_move) a ≡ true
unfolding has_answer answers
wider (without_error n) h = ground (arith, h)
wider (with_error n) h = ground (arith, h)

module _ {S : Type 0} (fs : FileSystem S) (std : Std) (prefix : Bytes) (r : Request) (s : S) where
  move_files-Fits :
      (src : FileInfo) (dst : Bytes) (overwrite : Bool)
      → Fits on_copy_move s (move_files fs std src dst overwrite s)
  unfolding move_files answers refusals has_answer one_of
  move_files-Fits src dst overwrite =
      let d = rename_step fs std src dst (move_step fs std src dst s) in
      done_or-Fits s on_copy_move 204 500 d.0 d.1 refl refl refl refl

  copy_files-Fits :
      (src : FileInfo) (dst : Bytes) (overwrite : Bool) (depth : ℤ)
      → Fits on_copy_move s (copy_files fs std src dst overwrite depth 0 s)
  unfolding copy_files answers refusals has_answer one_of
  copy_files-Fits src dst overwrite depth =
      let d = fs.copy (folder_ids src) (file_ids src) src.position (std.path_dir dst) s in
      done_or-Fits s on_copy_move 204 500 d.0 d.1 refl refl refl refl

  copy_or_move-Fits :
      (target : FileInfo) (src dst : Bytes)
      → Fits on_copy_move s (copy_or_move fs std r target src dst s)
  unfolding copy_or_move confirm_locks answers has_answer
  copy_or_move-Fits target src dst = elim (Bool-cases (eqb r.method (codes "COPY"))) [
    | inl e ↦ elim (Bool-cases (is_zero_or_infinite (depth_of r.depth))) [
      | inl f ↦
          rw (copy_or_move, e, f)
            (copy_files-Fits target dst (not (eqb r.overwrite (codes "F"))) (depth_of r.depth))
      | inr f ↦
          rw (copy_or_move, e, f) (replied-Fits s on_copy_move (fail 400 err_invalid_depth) refl)
    ]
    | inr e ↦ elim (Bool-cases (is_infinite (depth_of r.depth))) [
      | inl f ↦ rw (copy_or_move, e, f) (move_files-Fits target dst (eqb r.overwrite (codes "T")))
      | inr f ↦
          rw (copy_or_move, e, f) (replied-Fits s on_copy_move (fail 400 err_invalid_depth) refl)
    ]
  ]

  handle_copy_move-Fits : Fits on_copy_move (fs.recycle s) (handle_copy_move fs std prefix r s)
  unfolding handle_copy_move answers has_answer
  handle_copy_move-Fits =
      recycled-Fits s fs (elim (Sum-cases (copy_move_paths std.parse_url prefix r)) [
        | inr (reply, e) ↦
            rw (handle_copy_move, e)
              (replied-Fits s on_copy_move reply
                (wider (answer_of reply) (copy_move_paths_refused std.parse_url prefix r reply e)))
        | inl (paths, e) ↦ elim (Option-cases (is_path_exist fs paths.0 s)) [
          | inl f ↦ rw (handle_copy_move, e, f) (replied-Fits s on_copy_move (answer 404) refl)
          | inr (target, f) ↦ rw (handle_copy_move, e, f) (copy_or_move-Fits target paths.0 paths.1)
        ]
      ])

  -- An answer in XML, whether it was written or not.
  ended-Fits :
      (m : Method) (walked : Option WalkError) (closed : Option Error) (out : List Output)
      → has_answer (answers m) (without_error 0) ≡ true
      → has_answer (answers m) (with_error 500) ≡ true
      → Fits m s (record { reply = multistatus_reply walked closed; output = out; store = s })
  ended-Fits m none none out a b = record { allowed = a; kept = λ f. refl }
  ended-Fits m none (some e) out a b = record { allowed = b; kept = λ f. refl }
  ended-Fits m (some (stop e)) closed out a b = record { allowed = b; kept = λ f. refl }
  ended-Fits m (some skip_dir) closed out a b = record { allowed = b; kept = λ f. refl }

  module _ (env : Env) (ls : MemLs) where
    handle_lock-Fits :
        (now email : Bytes)
        → Fits on_lock (fs.recycle s) (handle_lock fs std ls env now email prefix r s)
    unfolding handle_lock answers has_answer
    handle_lock-Fits now email =
        recycled-Fits s fs (elim (Option-cases (parse_timeout std.trim_space r.timeout)) [
          | inl e ↦ rw (handle_lock, e) (replied-Fits s on_lock (fail 400 err_invalid_timeout) refl)
          | inr (duration, e) ↦ elim (Sum-cases (strip_prefix prefix r.path)) [
            | inl (path, f) ↦
                rw (handle_lock, e, f)
                  (written-Fits s on_lock
                    (write_text (write_lock_info env now duration email path) ∷ []) refl)
            | inr (reply, f) ↦
                rw (handle_lock, e, f) (refused-Fits s prefix on_lock r.path reply refl f)
          ]
        ])

    list_at-Fits :
        (path : Bytes) (info : FileInfo)
        → Fits on_propfind s (list_at fs std env prefix r path info s)
    unfolding list_at answers has_answer
    list_at-Fits path info = elim (Bool-cases (is_invalid (depth_of r.depth))) [
      | inl e ↦ rw (list_at, e) (replied-Fits s on_propfind (fail 400 err_invalid_depth) refl)
      | inr e ↦ elim (Sum-cases (read_propfind (std.decode_propfind r.body))) [
        | inl (pf, f) ↦
            let below = fs.children info s in
            let w =
              walk_fs std (visit_resource env std prefix pf) (depth_of r.depth) path
                (tree info below.0 below.1) new_writer in
            let c = close std w.1 in
            rw (list_at, e, f) (ended-Fits on_propfind w.0 c.0 (c.1).output refl refl)
        | inr (reply, f) ↦
            rw (list_at, e, f)
              (replied-Fits s on_propfind reply (
                ap (has_answer (answers on_propfind))
                  (read_propfind_refused (std.decode_propfind r.body) reply f)))
      ]
    ]

    handle_propfind-Fits :
        Fits on_propfind (fs.recycle s) (handle_propfind fs std env prefix ls r s)
    unfolding handle_propfind answers has_answer
    handle_propfind-Fits = recycled-Fits s fs (elim (Sum-cases (strip_prefix prefix r.path)) [
      | inr (reply, e) ↦
          rw (handle_propfind, e) (refused-Fits s prefix on_propfind r.path reply refl e)
      | inl (path, e) ↦ elim (Option-cases (is_path_exist fs path s)) [
        | inl f ↦ rw (handle_propfind, e, f) (replied-Fits s on_propfind (answer 404) refl)
        | inr (info, f) ↦ rw (handle_propfind, e, f) (list_at-Fits path info)
      ]
    ])

    patch_at-Fits : Fits on_proppatch s (patch_at fs std env prefix r s)
    unfolding patch_at answers has_answer
    patch_at-Fits = elim (Sum-cases (read_proppatch (std.decode_proppatch r.body))) [
      | inl (patches, e) ↦
          let w =
            stop_at
              (write_response std (make_propstat_response std r.path (patch patches)) new_writer) in
          let c = close std w.1 in
          rw (patch_at, e) (ended-Fits on_proppatch w.0 c.0 (c.1).output refl refl)
      | inr (reply, e) ↦
          rw (patch_at, e)
            (replied-Fits s on_proppatch reply (
              ap (has_answer (answers on_proppatch))
                (read_proppatch_refused (std.decode_proppatch r.body) reply e)))
    ]

    handle_proppatch-Fits :
        Fits on_proppatch (fs.recycle s) (handle_proppatch fs std env prefix ls r s)
    unfolding handle_proppatch confirm_locks answers has_answer
    handle_proppatch-Fits = recycled-Fits s fs (elim (Sum-cases (strip_prefix prefix r.path)) [
      | inr (reply, e) ↦
          rw (handle_proppatch, e) (refused-Fits s prefix on_proppatch r.path reply refl e)
      | inl (path, e) ↦ elim (Option-cases (is_path_exist fs path s)) [
        | inl f ↦ rw (handle_proppatch, e, f) (replied-Fits s on_proppatch (answer 404) refl)
        | inr (info, f) ↦ rw (handle_proppatch, e, f) patch_at-Fits
      ]
    ])

-- The store that a request which is refused leaves.
unfoldable pub untouched : {S : Type 0} → FileSystem S → Method → S → S
untouched fs on_options s = s
untouched fs on_put s = s
untouched fs on_unsupported s = s
untouched fs m s = fs.recycle s

module _ {S : Type 0} (fs : FileSystem S) (std : Std) (env : Env) (prefix now email : Bytes)
    (ls : MemLs) where
  handle-Fits :
      (m : Method) (r : Request) (s : S)
      → Fits m (untouched fs m s) (handle fs std env prefix now email ls m r s)
  unfolding handle untouched answers has_answer
  handle-Fits on_options r s =
      handle_options-Fits fs std prefix (etag_in fs std env prefix now email) r s
  handle-Fits on_get_head_post r s =
      handle_get_head_post-Fits fs std prefix (etag_in fs std env prefix now email) r s
  handle-Fits on_delete r s =
      handle_delete-Fits fs std prefix (etag_in fs std env prefix now email) r s
  handle-Fits on_put r s = handle_put-Fits fs std prefix (etag_in fs std env prefix now email) r s
  handle-Fits on_mkcol r s =
      handle_mkcol-Fits fs std prefix (etag_in fs std env prefix now email) r s
  handle-Fits on_copy_move r s = handle_copy_move-Fits fs std prefix r s
  handle-Fits on_lock r s = handle_lock-Fits fs std prefix r s env ls now email
  handle-Fits on_unlock r s = recycled-Fits s fs (replied-Fits s on_unlock (answer 204) refl)
  handle-Fits on_propfind r s = handle_propfind-Fits fs std prefix r s env ls
  handle-Fits on_proppatch r s = handle_proppatch-Fits fs std prefix r s env ls
  handle-Fits on_unsupported r s =
      replied-Fits s on_unsupported (fail 400 err_unsupported_method) refl

  -- A request that is answered with a status by which its method refuses leaves the files as they
  -- were, but for what Recycle does after it.
  pub handle-untouched :
      (m : Method) (r : Request) (s : S)
      → one_of (refusals m) (handle fs std env prefix now email ls m r s).reply.status ≡ true
      → (handle fs std env prefix now email ls m r s).store ≡ untouched fs m s
  handle-untouched m r s refused = (handle-Fits m r s).kept refused
