-- ===== src/Names/Tests.antt =====
-- Files that are checked.
use cloudreve.Prelude.{◌≡◌, ◌↔◌, true, [], ◌∷◌, codes}
use cloudreve.Names.{validate_legal_name, Policy, hook_validate_file}
use cloudreve.Names.Legal.{IsLegal, validate_legal_name-IsLegal}
use cloudreve.Names.Checked.{IsChecked, hook_validate_file-IsChecked}

validate_legal_name-IsLegal_example :
    (validate_legal_name (codes "a b.txt") ≡ true) ↔ IsLegal (codes "a b.txt")
validate_legal_name-IsLegal_example = validate_legal_name-IsLegal (codes "a b.txt")

abbrev policy : Policy
policy = record { max_size = 10; file_type = codes "txt" ∷ [] }

hook_validate_file-IsChecked_example :
    IsChecked
      (λ n. codes ".exe")
      policy
      9
      (codes "a.exe")
      (hook_validate_file (λ n. codes ".exe") policy 9 (codes "a.exe"))
hook_validate_file-IsChecked_example =
    hook_validate_file-IsChecked (λ n. codes ".exe") policy 9 (codes "a.exe")
