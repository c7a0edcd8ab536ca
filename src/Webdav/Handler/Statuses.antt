-- ===== src/Webdav/Handler/Statuses.antt =====
-- The answers of each method, and the statuses of them that come with no change.
use cloudreve.Prelude.{
  ℕ, ◌≡◌, refl, ap, ◌∙◌, true, false, Option, none, some, List, [], ◌∷◌, Bytes, ◌⊎◌, inl, inr,
}
use cloudreve.Webdav.Handler.Request.{
  Error, Reply, answer, fail, Output, FileSystem, Result, replied, strip_prefix,
}
use cloudreve.Webdav.Handler.Files.{done_or}
use cloudreve.Webdav.Handler.Resources.{written, then_recycle}
use cloudreve.Webdav.Handler.Serve.{
  Method, on_options, on_get_head_post, on_delete, on_put, on_mkcol, on_copy_move, on_lock,
  on_unlock, on_propfind, on_proppatch, on_unsupported,
}
use cloudreve.Webdav.Handler.Refused.{
  one_of, Answer, without_error, with_error, answer_of, has_answer, path_errors,
  strip_prefix_refused,
}

-- The answers that each method has.
unfoldable pub answers : Method → List Answer
answers on_options = without_error 0 ∷ with_error 404 ∷ []
answers on_get_head_post =
    without_error 0 ∷ without_error 404 ∷ with_error 404 ∷ with_error 500 ∷ []
answers on_delete = without_error 204 ∷ without_error 404 ∷ with_error 404 ∷ with_error 405 ∷ []
answers on_put = without_error 201 ∷ with_error 404 ∷ with_error 405 ∷ []
answers on_mkcol = without_error 201 ∷ with_error 404 ∷ with_error 409 ∷ without_error 415 ∷ []
answers on_copy_move = without_error 204 ∷ without_error 404 ∷ with_error 500 ∷ path_errors
answers on_lock = without_error 0 ∷ with_error 400 ∷ with_error 404 ∷ []
answers on_unlock = without_error 204 ∷ []
answers on_propfind =
    without_error 0 ∷ with_error 400 ∷ without_error 404 ∷ with_error 404 ∷ with_error 500 ∷ []
answers on_proppatch =
    without_error 0 ∷ with_error 400 ∷ without_error 404 ∷ with_error 404 ∷ with_error 500 ∷ []
answers on_unsupported = with_error 400 ∷ []

-- The statuses that a request gets before anything is changed.
unfoldable pub refusals : Method → List ℕ
refusals on_options = 0 ∷ 404 ∷ []
refusals on_get_head_post = []
refusals on_delete = 404 ∷ []
refusals on_put = 404 ∷ []
refusals on_mkcol = 404 ∷ 415 ∷ []
refusals on_copy_move = 400 ∷ 403 ∷ 404 ∷ 502 ∷ []
refusals on_lock = 0 ∷ 400 ∷ 404 ∷ []
refusals on_unlock = 204 ∷ []
refusals on_propfind = 0 ∷ 400 ∷ 404 ∷ 500 ∷ []
refusals on_proppatch = 0 ∷ 400 ∷ 404 ∷ 500 ∷ []
refusals on_unsupported = 400 ∷ []

-- A result with one of the answers of a method, and with this store if it refuses.
pub record Fits {S : Type 0} (m : Method) (s : S) (res : Result S) : Type 0 where
  pub allowed : has_answer (answers m) (answer_of res.reply) ≡ true
  pub kept : one_of (refusals m) res.reply.status ≡ true → res.store ≡ s

pub Sum-cases : {A B : Type 0} (x : A ⊎ B) → ((a : A) × (x ≡ inl a)) ⊎ ((b : B) × (x ≡ inr b))
Sum-cases (inl a) = inl (a, refl)
Sum-cases (inr b) = inr (b, refl)

module _ {S : Type 0} (s : S) where
  pub recycled-Fits :
      (fs : FileSystem S) {m : Method} {res : Result S}
      → Fits m s res
      → Fits m (fs.recycle s) (then_recycle fs res)
  recycled-Fits fs h = record { allowed = h.allowed; kept = λ e. ap fs.recycle (h.kept e) }

  pub replied-Fits :
      (m : Method) (reply : Reply)
      → has_answer (answers m) (answer_of reply) ≡ true
      → Fits m s (replied reply s)
  replied-Fits m reply e = record { allowed = e; kept = λ f. refl }

  pub written-Fits :
      (m : Method) (out : List Output)
      → has_answer (answers m) (without_error 0) ≡ true
      → Fits m s (written out s)
  written-Fits m out e = record { allowed = e; kept = λ f. refl }

  -- An answer to a prefix that the path does not have.
  pub refused-Fits :
      (prefix : Bytes) (m : Method) (p : Bytes) (reply : Reply)
      → has_answer (answers m) (with_error 404) ≡ true
      → strip_prefix prefix p ≡ inr reply
      → Fits m s (replied reply s)
  refused-Fits prefix m p reply allowed e =
      replied-Fits m reply
        (ap (has_answer (answers m)) (strip_prefix_refused prefix p reply e) ∙ allowed)

  -- An answer to a change, with whatever store it leaves.
  pub changed-Fits :
      (m : Method) (res : Result S)
      → has_answer (answers m) (answer_of res.reply) ≡ true
      → one_of (refusals m) res.reply.status ≡ false
      → Fits m s res
  changed-Fits m res allowed changed = record {
    allowed = allowed;
    kept = λ e. let no_way : ⊥ = cc in elim no_way [ ];
  }

  pub done_or-Fits :
      (m : Method) (done failed : ℕ) (err : Option Error) (s' : S)
      → has_answer (answers m) (without_error done) ≡ true
      → one_of (refusals m) done ≡ false
      → has_answer (answers m) (with_error failed) ≡ true
      → one_of (refusals m) failed ≡ false
      → Fits m s (replied (done_or done failed err) s')
  unfolding done_or
  done_or-Fits m done failed none s' a b c d = changed-Fits m (replied (answer done) s') a b
  done_or-Fits m done failed (some e) s' a b c d = changed-Fits m (replied (fail failed e) s') c d
