-- ===== src/Webdav/Handler/Propstats.antt =====
-- The properties that a resource answers with, of which there is at least one list, so that the
-- multistatusWriter takes them.
use cloudreve.Prelude.{
  ◌≡◌, refl, true, false, List, [], ◌∷◌, ◌++◌, map, Bytes, Bool-cases, inl, inr,
}
use cloudreve.Webdav.Props.{
  FileInfo, Name, Propstat, Env, at_least_one, add_propstat, empty_propstat, make_propstats,
  props_loop, included, props, propnames, allprop,
}
use cloudreve.Webdav.Handler.Request.{Propfind, Std}
use cloudreve.Webdav.Handler.Replies.{make_propstat_response, is_empty, is_valid_response}
use cloudreve.Webdav.Handler.Listing.{names_or_nil, found_by}

at_least_one_some : (l : List Propstat) → is_empty (at_least_one l) ≡ false
at_least_one_some [] = refl
at_least_one_some (x ∷ l) = refl

make_propstats_some : (x y : Propstat) → is_empty (make_propstats x y) ≡ false
unfolding make_propstats
make_propstats_some x y = at_least_one_some (add_propstat x (add_propstat y []))

props_some :
    (env : Env) (info : FileInfo) (names : List Name) → is_empty (props env info names) ≡ false
unfolding props
props_some env info names =
    let r = props_loop env info names (empty_propstat 200) (empty_propstat 404) in
    make_propstats_some r.0 r.1

pub found_by_some :
    (env : Env) (pf : Propfind) (info : FileInfo) → is_empty (found_by env pf info) ≡ false
unfolding found_by allprop
found_by_some env pf info = elim (Bool-cases pf.propname) [
  | inl e ↦ rw e refl
  | inr e ↦ elim (Bool-cases pf.allprop) [
    | inl f ↦
        rw (e, f)
          (props_some env info (propnames info ++ included (propnames info) (names_or_nil pf.prop)))
    | inr f ↦ rw (e, f) (props_some env info (names_or_nil pf.prop))
  ]
]

is_empty-map : {A B : Type 0} (f : A → B) (xs : List A) → is_empty (map f xs) ≡ is_empty xs
is_empty-map f [] = refl
is_empty-map f (x ∷ xs) = refl

pub response-Valid :
    (std : Std) (href : Bytes) (pstats : List Propstat)
    → is_empty pstats ≡ false
    → is_valid_response (make_propstat_response std href pstats) ≡ true
unfolding is_valid_response make_propstat_response
response-Valid std href (p ∷ pstats) e = refl
response-Valid std href [] e = let no_way : ⊥ = cc in elim no_way [ ]
