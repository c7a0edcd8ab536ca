-- ===== src/Webdav/Handler/Bodies.antt =====
-- The readers of the bodies of PROPFIND and PROPPATCH, over what the decoder of XML gives.
use cloudreve.Prelude.{
  Bool, true, false, not, ◌&&◌, ◌||◌, Option, none, some, List, [], ◌∷◌, Bytes, codes,
  if◌then◌else◌, ◌⊎◌, inl, inr,
}
use cloudreve.Webdav.Props.{Name, Property, Proppatch, same_name}
use cloudreve.Webdav.Handler.Request.{
  Propfind, Decoded, decoded, eof, broken, SetRemove, Reply, fail, err_invalid_propfind,
  err_invalid_proppatch, err_other,
}

abbrev pub is_some {ℓ} : {A : Type ℓ} → Option A → Bool
is_some none = false
is_some (some a) = true

-- The checks of readPropfind.
unfoldable pub check_propfind : Propfind → Propfind ⊎ Reply
check_propfind pf =
    if not pf.allprop && is_some pf.include
    then inr (fail 400 err_invalid_propfind)
    else (if pf.allprop && (is_some pf.prop || pf.propname)
        then inr (fail 400 err_invalid_propfind)
        else (if is_some pf.prop && pf.propname
            then inr (fail 400 err_invalid_propfind)
            else (if not pf.propname && (not pf.allprop && not (is_some pf.prop))
                then inr (fail 400 err_invalid_propfind)
                else inl pf)))

unfoldable pub read_propfind : Decoded Propfind → Propfind ⊎ Reply
unfolding check_propfind
read_propfind (eof true) =
    inl (record { allprop = true; propname = false; prop = none; include = none })
read_propfind (eof false) = inr (fail 400 err_invalid_propfind)
read_propfind broken = inr (fail 400 err_other)
read_propfind (decoded pf) = check_propfind pf

abbrev dav : Bytes → Name
dav local = record { space = codes "DAV:"; local = local }

abbrev pub any_value : List Property → Bool
any_value [] = false
any_value (p ∷ ps) = elim p.inner_xml [ [] ↦ any_value ps | c ∷ s ↦ true ]

-- One instruction, as a patch or refused.
unfoldable pub read_set_remove : SetRemove → Option Proppatch
unfolding same_name
read_set_remove op =
    if same_name op.xml_name (dav (codes "set"))
    then some (record { remove = false; props = op.prop })
    else (if same_name op.xml_name (dav (codes "remove"))
        then (if any_value op.prop then none else some (record { remove = true; props = op.prop }))
        else none)

abbrev pub cons_patch : Option Proppatch → List Proppatch ⊎ Reply → List Proppatch ⊎ Reply
cons_patch none rest = inr (fail 400 err_invalid_proppatch)
cons_patch (some p) (inl ps) = inl (p ∷ ps)
cons_patch (some p) (inr reply) = inr reply

unfoldable pub read_set_removes : List SetRemove → List Proppatch ⊎ Reply
unfolding read_set_remove
read_set_removes [] = inl []
read_set_removes (op ∷ ops) = cons_patch (read_set_remove op) (read_set_removes ops)

unfoldable pub read_proppatch : Decoded (List SetRemove) → List Proppatch ⊎ Reply
unfolding read_set_removes
read_proppatch (decoded ops) = read_set_removes ops
read_proppatch (eof b) = inr (fail 400 err_other)
read_proppatch broken = inr (fail 400 err_other)
