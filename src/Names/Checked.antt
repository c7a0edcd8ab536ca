-- ===== src/Names/Checked.antt =====
-- The files that HookValidateFile lets through, and its errors for the others.
use cloudreve.Prelude.{
  ℕ, ◌≤◌, ◌<◌, ◌≡◌, arith, true, false, Option, none, some, Bytes, ◌⊎◌, Bool-cases, inl, inr,
}
use cloudreve.Names.{
  validate_file_size, validate_legal_name, validate_extension, FileError, err_file_size_too_big,
  err_illegal_object_name, err_file_extension_not_allowed, Policy, hook_validate_file,
}
use cloudreve.Names.Legal.{IsLegal, IsLegal-sound, IsLegal-complete}

pub FitsSize : Policy → ℕ → Type 0
FitsSize policy size = (policy.max_size ≡ 0) ⊎ (size ≤ policy.max_size)

-- The results of the hook with their reasons: the first of the checks that fails, or none.
pub data IsChecked (lower_ext : Bytes → Bytes) (policy : Policy) (size : ℕ) (name : Bytes)
    : Option FileError → Type 0 where
  too_big :
      0 < policy.max_size
      → policy.max_size < size
      → IsChecked lower_ext policy size name (some err_file_size_too_big)
  illegal :
      FitsSize policy size
      → ¬ IsLegal name
      → IsChecked lower_ext policy size name (some err_illegal_object_name)
  not_allowed :
      FitsSize policy size
      → IsLegal name
      → validate_extension lower_ext policy.file_type name ≡ false
      → IsChecked lower_ext policy size name (some err_file_extension_not_allowed)
  passes :
      FitsSize policy size
      → IsLegal name
      → validate_extension lower_ext policy.file_type name ≡ true
      → IsChecked lower_ext policy size name none

fits_size :
    (policy : Policy) (size : ℕ)
    → validate_file_size policy.max_size size ≡ true
    → FitsSize policy size
unfolding validate_file_size FitsSize
fits_size policy size h = ground (arith, h)

illegal_name : (name : Bytes) → validate_legal_name name ≡ false → ¬ IsLegal name
illegal_name name h = λ l. let good = IsLegal-complete name l in let no_way : ⊥ = cc in no_way

-- HookValidateFile gives the error of the first of its checks that fails, of the size, of the name and
-- of the extension, and none if the file passes all of them.
pub hook_validate_file-IsChecked :
    (lower_ext : Bytes → Bytes) (policy : Policy) (size : ℕ) (name : Bytes)
    → IsChecked lower_ext policy size name (hook_validate_file lower_ext policy size name)
unfolding hook_validate_file
hook_validate_file-IsChecked lower_ext policy size name =
    elim (Bool-cases (validate_file_size policy.max_size size)) [
      | inr e ↦
          rw (hook_validate_file, e)
            (too_big (unfold validate_file_size in ground (arith, e))
              (unfold validate_file_size in ground (arith, e)))
      | inl e ↦ elim (Bool-cases (validate_legal_name name)) [
        | inr f ↦
            rw (hook_validate_file, e, f) (illegal (fits_size policy size e) (illegal_name name f))
        | inl f ↦ elim (Bool-cases (validate_extension lower_ext policy.file_type name)) [
          | inr g ↦
              rw (hook_validate_file, e, f, g)
                (not_allowed (fits_size policy size e) (IsLegal-sound name f) g)
          | inl g ↦
              rw (hook_validate_file, e, f, g)
                (passes (fits_size policy size e) (IsLegal-sound name f) g)
        ]
      ]
    ]
