-- ===== src/Webdav/Handler/Deletes.antt =====
-- What a client, the log and the files see of DELETE, from ServeHTTP to the file system.
use cloudreve.Prelude.{ℕ, ◌≡◌, Option, none, some, List, [], ◌∷◌, ◌++◌, Bytes, inl, inr}
use cloudreve.Webdav.Props.{FileInfo}
use cloudreve.Webdav.Handler.Request.{
  Error, err_prefix_mismatch, fail, Request, Output, write_header, write_text, FileSystem, Std,
  Result, strip_prefix, status_text,
}
use cloudreve.Webdav.Handler.Serve.{write_status}

module _ {S : Type 0} (fs : FileSystem S) (std : Std) (prefix : Bytes) where
  -- The folders and the files to delete for a path: the file there, or the folder if there is none.
  pub data Target (path : Bytes) (s : S) : List ℕ → List ℕ → Type 0 where
    file_target : (f : FileInfo) → fs.is_file_exist path s ≡ some f → Target path s [] (f.id ∷ [])
    folder_target :
        (f : FileInfo)
        → fs.is_file_exist path s ≡ none
        → fs.is_path_exist path s ≡ some f
        → Target path s (f.id ∷ []) []

  -- A status with its text.
  abbrev told : ℕ → List Output
  told n = write_header n ∷ write_text (status_text std.http_status_text n) ∷ []

  -- The results of DELETE, as what is written, what is logged and what is stored.
  pub data IsDelete (r : Request) (s : S) : List Output → Option Error → S → Type 0 where
    outside :
        strip_prefix prefix r.path ≡ inr (fail 404 err_prefix_mismatch)
        → IsDelete r s (told 404) (some err_prefix_mismatch) (fs.recycle s)
    no_target :
        (path : Bytes)
        → strip_prefix prefix r.path ≡ inl path
        → fs.is_file_exist path s ≡ none
        → fs.is_path_exist path s ≡ none
        → IsDelete r s (told 404) none (fs.recycle s)
    deleted :
        (path : Bytes) (folders files : List ℕ) (s' : S)
        → strip_prefix prefix r.path ≡ inl path
        → Target path s folders files
        → fs.delete folders files s ≡ (none, s')
        → IsDelete r s (write_header 204 ∷ []) none (fs.recycle s')
    delete_failed :
        (path : Bytes) (folders files : List ℕ) (e : Error) (s' : S)
        → strip_prefix prefix r.path ≡ inl path
        → Target path s folders files
        → fs.delete folders files s ≡ (some e, s')
        → IsDelete r s (told 405) (some e) (fs.recycle s')

  -- A result of a handler with its status written.
  record Answers (r : Request) (s : S) (res : Result S) : Type 0 where
    says : IsDelete r s (res.output ++ write_status std res.reply.status) res.reply.err res.store
