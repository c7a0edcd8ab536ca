-- ===== src/Webdav/Props/All.antt =====
-- Which properties allprop finds.
use mathlib.Core.List.{append-nil}
use cloudreve.Prelude.{
  ◌≡◌, refl, ap, ◌∙◌, Bool, true, false, not, List, [], ◌∷◌, ◌++◌, eqb, Bool-cases, inl, inr, find,
}
use cloudreve.Webdav.Props.{
  FileInfo, Name, Env, live_prop, live_props, finder, names_in, propnames, has_name, included,
  allprop,
}
use cloudreve.Webdav.Props.Found.{
  select, select-append, answered, is_found, is_missing, props-answered, has_name-propnames,
}

-- All the names of propnames are found.
names_in-found_all :
    (is_dir : Bool)
    → (select (is_found is_dir) (names_in is_dir live_props) ≡ names_in is_dir live_props)
      × (select (is_missing is_dir) (names_in is_dir live_props) ≡ [])
unfolding names_in finder live_prop find eqb
names_in-found_all true = (refl, refl)
names_in-found_all false = (refl, refl)

-- The names that propnames does not have.
abbrev pub is_new : FileInfo → Name → Bool
is_new fi n = not (has_name n (propnames fi))

module _ (fi : FileInfo) where
  included-select :
      (include : List Name)
      → (included (propnames fi) include ≡ select (is_new fi) include)
        × (select (is_found fi.is_dir) (included (propnames fi) include) ≡ [])
        × (select (is_missing fi.is_dir) (included (propnames fi) include)
            ≡ select (is_new fi) include)
  unfolding included
  included-select [] = (refl, refl, refl)
  included-select (n ∷ include) =
      let rest = included-select include in
      elim (Bool-cases (has_name n (propnames fi))) [
        | inl there ↦ rw (included, there) rest
        | inr new ↦ elim (Bool-cases (is_found fi.is_dir n)) [
          | inl found ↦
              let has = has_name-propnames fi n found in let no_way : ⊥ = cc in elim no_way [ ]
          | inr missing ↦
              rw (included, new, missing) (ap (λ l. n ∷ l) rest.0, rest.1, ap (λ l. n ∷ l) rest.2)
        ]
      ]

-- allprop answers with 200 exactly the names of propnames, and with 404 the names to include that are
-- not among them.
pub allprop-answered :
    (env : Env) (fi : FileInfo) (include : List Name)
    → (answered 200 (allprop env fi include) ≡ propnames fi)
      × (answered 404 (allprop env fi include) ≡ select (is_new fi) include)
unfolding allprop
allprop-answered env fi include =
    let names = propnames fi ++ included (propnames fi) include in
    let answers = props-answered env fi names in
    let inc = included-select fi include in
    let all : (select (is_found fi.is_dir) (propnames fi) ≡ propnames fi)
        × (select (is_missing fi.is_dir) (propnames fi) ≡ []) =
      unfold propnames in (names_in-found_all fi.is_dir) in
    let found : select (is_found fi.is_dir) names ≡ propnames fi =
      select-append (is_found fi.is_dir) (propnames fi) _ ∙ rw (all.0, inc.1, append-nil) refl in
    let missing : select (is_missing fi.is_dir) names ≡ select (is_new fi) include =
      select-append (is_missing fi.is_dir) (propnames fi) _ ∙ rw (all.1, inc.2) refl in
    (answers.0 ∙ found, answers.1 ∙ missing)
