-- ===== src/Webdav/Handler/Accepted.antt =====
-- The bodies of PROPFIND and of PROPPATCH that are accepted.
use cloudreve.Prelude.{◌≡◌, ◌↔◌, refl, Bool, true, false, Option, none, some, List, inl}
use cloudreve.Webdav.Props.{Name}
use cloudreve.Webdav.Handler.Request.{Propfind, decoded}
use cloudreve.Webdav.Handler.Bodies.{check_propfind, read_propfind}

-- The bodies that ask for everything, for the names, or for some properties.
pub data IsPropfind : Propfind → Type 0 where
  asks_all :
      (include : Option (List Name))
      → IsPropfind (record { allprop = true; propname = false; prop = none; include = include })
  asks_names : IsPropfind (record { allprop = false; propname = true; prop = none; include = none })
  asks_some :
      (names : List Name)
      → IsPropfind (record { allprop = false; propname = false; prop = some names; include = none })

check_propfind_sound :
    (a n : Bool) (p i : Option (List Name)) (pf : Propfind)
    → check_propfind (record { allprop = a; propname = n; prop = p; include = i }) ≡ inl pf
    → IsPropfind (record { allprop = a; propname = n; prop = p; include = i })
unfolding check_propfind
check_propfind_sound true false none i pf e = asks_all i
check_propfind_sound true false (some p) i pf e = let no_way : ⊥ = cc in elim no_way [ ]
check_propfind_sound true true none i pf e = let no_way : ⊥ = cc in elim no_way [ ]
check_propfind_sound true true (some p) i pf e = let no_way : ⊥ = cc in elim no_way [ ]
check_propfind_sound false true none (some i) pf e = let no_way : ⊥ = cc in elim no_way [ ]
check_propfind_sound false true (some p) (some i) pf e = let no_way : ⊥ = cc in elim no_way [ ]
check_propfind_sound false false none (some i) pf e = let no_way : ⊥ = cc in elim no_way [ ]
check_propfind_sound false false (some p) (some i) pf e = let no_way : ⊥ = cc in elim no_way [ ]
check_propfind_sound false true (some p) none pf e = let no_way : ⊥ = cc in elim no_way [ ]
check_propfind_sound false false none none pf e = let no_way : ⊥ = cc in elim no_way [ ]
check_propfind_sound false true none none pf e = asks_names
check_propfind_sound false false (some p) none pf e = asks_some p

check_propfind_complete : (pf : Propfind) → IsPropfind pf → check_propfind pf ≡ inl pf
unfolding check_propfind
check_propfind_complete _ (asks_all include) = refl
check_propfind_complete _ asks_names = refl
check_propfind_complete _ (asks_some names) = refl

-- A body with an element propfind is accepted, as it is, if and only if it asks for one of everything, which it may
-- extend, of the names, and of some properties.
pub read_propfind-IsPropfind :
    (pf : Propfind) → (read_propfind (decoded pf) ≡ inl pf) ↔ IsPropfind pf
unfolding read_propfind
read_propfind-IsPropfind pf =
    (check_propfind_sound pf.allprop pf.propname pf.prop pf.include pf, check_propfind_complete pf)
