-- ===== src/Names.antt =====
-- pkg/filesystem/validator.go and HookValidateFile of hooks.go: which names and sizes an upload may
-- have. filepath.Ext, in lower case, is an argument.
pub mod Legal
pub mod Checked
mod Tests
use cloudreve.Prelude.{
  ℕ, Bool, true, false, not, Option, none, some, List, [], ◌∷◌, Bytes, codes, contains, eqb, length,
  ltb, leb, if◌then◌else◌, ◌==◌,
}
use cloudreve.Slices.{contains_string}

abbrev pub reserved_character : List Bytes
reserved_character =
    codes "\\"
    ∷ codes "?"
    ∷ codes "*"
    ∷ codes "<"
    ∷ codes "\""
    ∷ codes ":"
    ∷ codes ">"
    ∷ codes "/"
    ∷ codes "|"
    ∷ []

-- The loop over the reserved characters, which says whether one is in the name.
unfoldable pub has_one_of : Bytes → List Bytes → Bool
unfolding contains
has_one_of name [] = false
has_one_of name (value ∷ values) =
    let rest = has_one_of name values in if contains name value then true else rest

-- `strings.HasSuffix(name, " ")`
unfoldable pub ends_in_space : Bytes → Bool
ends_in_space [] = false
ends_in_space (c ∷ []) = c == b' '
ends_in_space (c ∷ d ∷ s) = ends_in_space (d ∷ s)

unfoldable pub validate_legal_name : Bytes → Bool
unfolding has_one_of ends_in_space
validate_legal_name name =
    if has_one_of name reserved_character
    then false
    else (if leb 256 (length name)
        then false
        else (if length name == 0 then false else (if ends_in_space name then false else true)))

-- With 0 for a policy without a limit.
unfoldable pub validate_file_size : ℕ → ℕ → Bool
validate_file_size max_size size = if max_size == 0 then true else leb size max_size

unfoldable pub is_in_extension_list : (Bytes → Bytes) → List Bytes → Bytes → Bool
unfolding contains_string
is_in_extension_list lower_ext ext_list file_name = elim (lower_ext file_name) [
  | [] ↦ false
  | dot ∷ ext ↦ if contains_string ext_list ext then true else false
]

-- An empty list allows every extension.
unfoldable pub validate_extension : (Bytes → Bytes) → List Bytes → Bytes → Bool
unfolding is_in_extension_list
validate_extension lower_ext [] file_name = true
validate_extension lower_ext (e ∷ es) file_name = is_in_extension_list lower_ext (e ∷ es) file_name

pub data FileError : Type 0 where
  err_file_size_too_big err_illegal_object_name err_file_extension_not_allowed : FileError

-- What of a storage policy the hook reads.
pub record Policy : Type 0 where
  pub max_size : ℕ
  pub file_type : List Bytes

unfoldable pub hook_validate_file : (Bytes → Bytes) → Policy → ℕ → Bytes → Option FileError
unfolding validate_file_size validate_legal_name validate_extension
hook_validate_file lower_ext policy size file_name =
    if not (validate_file_size policy.max_size size)
    then some err_file_size_too_big
    else (if not (validate_legal_name file_name)
        then some err_illegal_object_name
        else (if not (validate_extension lower_ext policy.file_type file_name)
            then some err_file_extension_not_allowed
            else none))
