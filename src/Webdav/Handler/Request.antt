-- ===== src/Webdav/Handler/Request.antt =====
-- Requests, answers and the operations that the handlers use.
use cloudreve.Prelude.{
  ℕ, Bool, Option, none, some, List, [], ◌∷◌, ℤ, pos, negsuc, Bytes, codes, eqb, has_prefix, length,
  drop, ltb, ◌==◌, if◌then◌else◌, ◌⊎◌, inl, inr,
}
use cloudreve.Webdav.Path.{slash}
use cloudreve.Webdav.Props.{FileInfo, Name, Property}

-- The errors of the package, and those of the file system and of the libraries.
pub data Error : Type 0 where
  err_destination_equals_source err_invalid_depth err_invalid_destination err_invalid_propfind :
      Error
  err_invalid_proppatch err_invalid_timeout err_no_lock_system err_prefix_mismatch : Error
  err_recursion_too_deep err_unsupported_method err_object_not_exist err_invalid_response
        err_other :
      Error

-- The status, which is 0 for an answer that has been written already, and the error.
pub record Reply : Type 0 where
  pub status : ℕ
  pub err : Option Error

abbrev pub answer : ℕ → Reply
answer status = record { status = status; err = none }

abbrev pub fail : ℕ → Error → Reply
fail status e = record { status = status; err = some e }

pub record Request : Type 0 where
  pub method : Bytes
  pub path : Bytes
  pub destination : Bytes
  pub depth : Bytes
  pub overwrite : Bytes
  pub timeout : Bytes
  pub content_length : ℤ
  pub content_length_header : Bytes
  pub content_type : Bytes
  pub body : Bytes

-- The elements propstat and response of the answers in XML.
pub record PropstatElement : Type 0 where
  pub status : Bytes
  pub prop : List Property
  pub error : Option Bytes

pub record Response : Type 0 where
  pub href : List Bytes
  pub propstat : List PropstatElement
  pub status : Bytes

-- What is written to the client.
pub data Output : Type 0 where
  set_header : Bytes → Bytes → Output
  write_header : ℕ → Output
  write_text : Bytes → Output
  serve_content : FileInfo → Output
  redirect : Bytes → Output
  xml_declaration begin_multistatus : Output
  respond : Response → Output
  end_multistatus : Output

-- What `Preview` gives.
pub data Preview : Type 0 where
  no_preview : Error → Preview
  content : FileInfo → Preview
  redirect_to : FileInfo → Bytes → Preview

pub data Stage : Type 0 where
  before_upload after_upload after_upload_canceled after_validate_failed : Stage

pub data Hook : Type 0 where
  hook_update_source_name hook_reset_policy hook_validate_file hook_validate_capacity : Hook
  hook_validate_capacity_diff hook_clean_file_content hook_clear_file_size hook_cancel_context :
      Hook
  generic_after_update hook_delete_temp_file generic_after_upload hook_generate_thumb : Hook

-- The file that `Upload` is given, with the hooks in their order.
pub record Upload : Type 0 where
  pub mime_type : Bytes
  pub size : ℕ
  pub name : Bytes
  pub virtual_path : Bytes
  pub overwrite : Bool
  pub new_source_name : Bool
  pub model : Option FileInfo
  pub hooks : List (Stage × Hook)

-- A folder with what it holds, a file with nothing.
mutual
  pub data Tree : Type 0 where
    tree : FileInfo → List FileInfo → Forest → Tree

  pub data Forest : Type 0 where
    empty : Forest
    plant : Tree → Forest → Forest

-- The operations of the file system of a user, over its state.
pub record FileSystem (S : Type 0) : Type 0 where
  pub is_path_exist : Bytes → S → Option FileInfo
  pub is_file_exist : Bytes → S → Option FileInfo
  pub recycle : S → S
  pub preview : FileInfo → S → Preview × S
  pub delete : List ℕ → List ℕ → S → Option Error × S
  pub upload : Upload → S → (Error ⊎ FileInfo) × S
  pub create_directory : Bytes → S → Option Error × S
  pub copy : List ℕ → List ℕ → Bytes → Bytes → S → Option Error × S
  pub move : List ℕ → List ℕ → Bytes → Bytes → S → Option Error × S
  pub rename : List ℕ → List ℕ → Bytes → S → Option Error × S
  -- whether RemoveFilesWithSoftLinks gives no error and no file
  pub only_soft_links : FileInfo → S → Bool
  -- the files and the folders below a folder
  pub children : FileInfo → S → List FileInfo × Forest

-- The fields that may be nil are `none` then.
pub record Propfind : Type 0 where
  pub allprop : Bool
  pub propname : Bool
  pub prop : Option (List Name)
  pub include : Option (List Name)

pub data Decoded (A : Type 0) : Type 0 where
  decoded : A → Decoded A
  -- io.EOF, after no byte of the body or after some
  eof : Bool → Decoded A
  broken : Decoded A

pub record SetRemove : Type 0 where
  pub xml_name : Name
  pub prop : List Property

-- What packages of Go do.
pub record Std : Type 0 where
  pub parse_url : Bytes → Option Bytes
  pub path_dir : Bytes → Bytes
  pub path_base : Bytes → Bytes
  pub path_join : Bytes → Bytes → Bytes
  pub trim_space : Bytes → Bytes
  pub escaped_path : Bytes → Bytes
  pub http_status_text : ℕ → Bytes
  pub takes : List Output → Bool
  pub decode_propfind : Bytes → Decoded Propfind
  pub decode_proppatch : Bytes → Decoded (List SetRemove)

pub record Result (S : Type 0) : Type 0 where
  pub reply : Reply
  pub output : List Output
  pub store : S

abbrev pub replied : {S : Type 0} → Reply → S → Result S
replied r s = record { reply = r; output = []; store = s }

-- `strings.TrimSuffix(s, "/")`
abbrev pub trim_slash : Bytes → Bytes
trim_slash [] = []
trim_slash (c ∷ []) = if c == b'/' then [] else c ∷ []
trim_slash (c ∷ d ∷ s) = c ∷ trim_slash (d ∷ s)

-- RemoveSlash of pkg/util/path.go
unfoldable pub remove_slash : Bytes → Bytes
remove_slash s = if ltb 1 (length s) then trim_slash s else s

-- `strings.TrimPrefix(s, p)`
abbrev pub trim_prefix : Bytes → Bytes → Bytes
trim_prefix s p = if has_prefix s p then drop (length p) s else s

abbrev root_if_nil : Bytes → Bytes
root_if_nil [] = slash
root_if_nil (c ∷ s) = c ∷ s

-- The path without the prefix, or the answer.
unfoldable pub strip_prefix : Bytes → Bytes → Bytes ⊎ Reply
unfolding remove_slash
strip_prefix [] p = inl p
strip_prefix (c ∷ prefix) p =
    let r = trim_prefix p (c ∷ prefix) in
    if ltb (length r) (length p)
    then inl (remove_slash (root_if_nil r))
    else inr (fail 404 err_prefix_mismatch)

-- 0, 1, infiniteDepth and invalidDepth
unfoldable pub parse_depth : Bytes → ℤ
parse_depth s =
    if eqb s (codes "0")
    then pos 0
    else (if eqb s (codes "1")
        then pos 1
        else (if eqb s (codes "infinity") then negsuc 0 else negsuc 1))

abbrev pub infinite_depth : ℤ
infinite_depth = negsuc 0

-- The text that StatusText adds to those of net/http.
unfoldable pub status_text : (ℕ → Bytes) → ℕ → Bytes
status_text http_status_text code =
    if code == 207
    then codes "Multi-Status"
    else (if code == 422
        then codes "Unprocessable Entity"
        else (if code == 423
            then codes "Locked"
            else (if code == 424
                then codes "Failed Dependency"
                else (if code == 507
                    then codes "Insufficient Storage"
                    else http_status_text code))))

unfoldable pub is_path_exist : {S : Type 0} → FileSystem S → Bytes → S → Option FileInfo
is_path_exist fs path s = elim (fs.is_path_exist path s) [
  | some f ↦ some f
  | none ↦ fs.is_file_exist path s
]
