-- ===== src/Webdav/Handler/Serve.antt =====
-- pkg/webdav/webdav.go: ServeHTTP.
use cloudreve.Prelude.{
  ℕ, Option, none, some, List, [], ◌∷◌, ◌++◌, Bytes, codes, if◌then◌else◌, Assoc, find, put, ◌==◌,
  nat_eq, bytes_eq,
}
use cloudreve.Webdav.Lock.State.{MemLs, new_mem_ls}
use cloudreve.Webdav.Props.{FileInfo, Env, run_find, find_etag}
use cloudreve.Webdav.Handler.Request.{
  Error, err_no_lock_system, err_unsupported_method, fail, Request, Output, write_header,
  write_text, FileSystem, Std, Result, replied, status_text,
}
use cloudreve.Webdav.Handler.Resources.{
  handle_options, handle_get_head_post, handle_delete, handle_put, handle_mkcol,
}
use cloudreve.Webdav.Handler.Transfers.{handle_copy_move, handle_lock, handle_unlock}
use cloudreve.Webdav.Handler.Listing.{handle_propfind, handle_proppatch}

-- The cases of the switch on the method.
pub data Method : Type 0 where
  on_options on_get_head_post on_delete on_put on_mkcol on_copy_move on_lock on_unlock : Method
  on_propfind on_proppatch on_unsupported : Method

abbrev methods : Assoc Bytes Method
methods =
    (codes "OPTIONS", on_options)
    ∷ (codes "GET", on_get_head_post)
    ∷ (codes "HEAD", on_get_head_post)
    ∷ (codes "POST", on_get_head_post)
    ∷ (codes "DELETE", on_delete)
    ∷ (codes "PUT", on_put)
    ∷ (codes "MKCOL", on_mkcol)
    ∷ (codes "COPY", on_copy_move)
    ∷ (codes "MOVE", on_copy_move)
    ∷ (codes "LOCK", on_lock)
    ∷ (codes "UNLOCK", on_unlock)
    ∷ (codes "PROPFIND", on_propfind)
    ∷ (codes "PROPPATCH", on_proppatch)
    ∷ []

abbrev method_or : Option Method → Method
method_or none = on_unsupported
method_or (some m) = m

unfoldable pub method_of : Bytes → Method
method_of s = method_or (find s methods)

-- The status, where one is left to write, and its text.
unfoldable pub write_status : Std → ℕ → List Output
unfolding status_text
write_status std status =
    if status == 0
    then []
    else write_header status
      ∷ (if status == 204 then [] else write_text (status_text std.http_status_text status) ∷ [])

-- What a request leaves: the lock systems, what is written, the error that is logged and the files.
pub record Served (S : Type 0) : Type 0 where
  pub lock_systems : Option (Assoc ℕ MemLs)
  pub output : List Output
  pub logged : Option Error
  pub store : S

-- The lock system of a user, made now if there is none, and the lock systems with it.
unfoldable pub with_lock_system : ℕ → ℕ → Assoc ℕ MemLs → MemLs × Assoc ℕ MemLs
with_lock_system unix uid locks = elim (find uid locks) [
  | some ls ↦ (ls, locks)
  | none ↦ (new_mem_ls unix, put uid (new_mem_ls unix) locks)
]

module _ {S : Type 0} (fs : FileSystem S) (std : Std) (env : Env) (prefix now email : Bytes) where
  abbrev pub etag_in : FileInfo → Bytes
  etag_in f = run_find env find_etag f

  unfoldable pub handle : MemLs → Method → Request → S → Result S
  unfolding handle_options handle_get_head_post handle_delete handle_put handle_mkcol
      handle_copy_move handle_lock handle_unlock handle_propfind handle_proppatch run_find
  handle ls on_options r s = handle_options fs std prefix etag_in r s
  handle ls on_get_head_post r s = handle_get_head_post fs std prefix etag_in r s
  handle ls on_delete r s = handle_delete fs std prefix etag_in r s
  handle ls on_put r s = handle_put fs std prefix etag_in r s
  handle ls on_mkcol r s = handle_mkcol fs std prefix etag_in r s
  handle ls on_copy_move r s = handle_copy_move fs std prefix r s
  handle ls on_lock r s = handle_lock fs std ls env now email prefix r s
  handle ls on_unlock r s = handle_unlock fs std ls r s
  handle ls on_propfind r s = handle_propfind fs std env prefix ls r s
  handle ls on_proppatch r s = handle_proppatch fs std env prefix ls r s
  handle ls on_unsupported r s = replied (fail 400 err_unsupported_method) s

  -- `none` for a nil map of lock systems.
  unfoldable pub serve_http : ℕ → ℕ → Request → Option (Assoc ℕ MemLs) → S → Served S
  unfolding handle method_of with_lock_system write_status
  serve_http unix uid r none s = record {
    lock_systems = none;
    output = write_status std 500;
    logged = some err_no_lock_system;
    store = s;
  }
  serve_http unix uid r (some locks) s =
      let l = with_lock_system unix uid locks in
      let answered = handle l.0 (method_of r.method) r s in
      record {
        lock_systems = some l.1;
        output = answered.output ++ write_status std answered.reply.status;
        logged = answered.reply.err;
        store = answered.store;
      }
