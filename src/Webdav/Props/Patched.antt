-- ===== src/Webdav/Props/Patched.antt =====
-- PROPPATCH is all or nothing.
use mathlib.Core.List.{append-nil, append_assoc}
use cloudreve.Prelude.{
  ℕ, ◌==◌, ◌≡◌, refl, sym, ap, ◌∙◌, Bool, true, false, not, List, [], ◌∷◌, ◌++◌, Bytes,
  if◌then◌else◌, Bool-cases, inl, inr,
}
use cloudreve.Webdav.Props.{
  Property, Propstat, Proppatch, empty_propstat, forbidden_propstat, name_only, append_name,
  make_propstats, is_live, any_live, conflicts, refuse_props, refuse, accept_props, accept, patch,
}
use cloudreve.Webdav.Props.Found.{
  select, select-append, names_of, names_of-append, snoc-names, answered, make_propstats-names,
  same_branches,
}

-- All the properties of the patches.
abbrev pub all_props : List Proppatch → List Property
all_props [] = []
all_props (p ∷ ps) = p.props ++ all_props ps

abbrev pub is_dead : Property → Bool
is_dead p = not (is_live p)

refuse_props-names :
    (ps : List Property) (r : Propstat × Propstat)
    → let q = refuse_props ps r in
      (names_of q.0.props ≡ names_of r.0.props ++ names_of (select is_live ps))
      × (names_of q.1.props ≡ names_of r.1.props ++ names_of (select is_dead ps))
      × (q.0.status ≡ r.0.status)
      × (q.1.status ≡ r.1.status)
unfolding refuse_props
refuse_props-names [] r = (sym (append-nil _), sym (append-nil _), refl, refl)
refuse_props-names (p ∷ ps) r = elim (Bool-cases (is_live p)) [
  | inl live ↦
      let rest = refuse_props-names ps (append_name r.0 p, r.1) in
      rw (refuse_props, live)
        (rest.0 ∙ snoc-names r.0.props (name_only p) _, rest.1, rest.2, rest.3)
  | inr dead ↦
      let rest = refuse_props-names ps (r.0, append_name r.1 p) in
      rw (refuse_props, dead)
        (rest.0, rest.1 ∙ snoc-names r.1.props (name_only p) _, rest.2, rest.3)
]

refuse-names :
    (patches : List Proppatch) (r : Propstat × Propstat)
    → let q = refuse patches r in
      (names_of q.0.props ≡ names_of r.0.props ++ names_of (select is_live (all_props patches)))
      × (names_of q.1.props ≡ names_of r.1.props ++ names_of (select is_dead (all_props patches)))
      × (q.0.status ≡ r.0.status)
      × (q.1.status ≡ r.1.status)
unfolding refuse
refuse-names [] r = (sym (append-nil _), sym (append-nil _), refl, refl)
refuse-names (p ∷ ps) r =
    let one = refuse_props-names p.props r in
    let rest = refuse-names ps (refuse_props p.props r) in
    (
      rest.0 ∙ rw (one.0, select-append, names_of-append, append_assoc) refl,
      rest.1 ∙ rw (one.1, select-append, names_of-append, append_assoc) refl,
      rest.2 ∙ one.2,
      rest.3 ∙ one.3,
    )

accept_props-names :
    (ps : List Property) (x : Propstat)
    → (names_of (accept_props ps x).props ≡ names_of x.props ++ names_of ps)
      × ((accept_props ps x).status ≡ x.status)
unfolding accept_props
accept_props-names [] x = (sym (append-nil _), refl)
accept_props-names (p ∷ ps) x =
    let rest = accept_props-names ps (append_name x p) in
    (rest.0 ∙ snoc-names x.props (name_only p) _, rest.1)

accept-names :
    (patches : List Proppatch) (x : Propstat)
    → (names_of (accept patches x).props ≡ names_of x.props ++ names_of (all_props patches))
      × ((accept patches x).status ≡ x.status)
unfolding accept
accept-names [] x = (sym (append-nil _), refl)
accept-names (p ∷ ps) x =
    let one = accept_props-names p.props x in
    let rest = accept-names ps (accept_props p.props x) in
    (rest.0 ∙ rw (one.0, names_of-append, append_assoc) refl, rest.1 ∙ one.1)

any_live-append :
    (xs ys : List Property) → any_live (xs ++ ys) ≡ (if any_live xs then true else any_live ys)
unfolding any_live
any_live-append [] ys = refl
any_live-append (x ∷ xs) ys = elim (Bool-cases (is_live x)) [
  | inl e ↦ rw (any_live, e) refl
  | inr e ↦ rw (any_live, e) (any_live-append xs ys)
]

conflicts-any_live : (patches : List Proppatch) → conflicts patches ≡ any_live (all_props patches)
unfolding conflicts
conflicts-any_live [] = unfold any_live in refl
conflicts-any_live (p ∷ ps) = rw (any_live-append, conflicts-any_live ps) refl

-- The answer of a PROPPATCH that has a live property: 403 for those that are live, 424 for the others.
pub data Answered (ps : List Property) (answer : List Propstat) : Type 0 where
  refused :
      any_live ps ≡ true
      → answered 403 answer ≡ names_of (select is_live ps)
      → answered 424 answer ≡ names_of (select is_dead ps)
      → answered 200 answer ≡ []
      → Answered ps answer
  accepted :
      any_live ps ≡ false
      → answered 200 answer ≡ names_of ps
      → answered 403 answer ≡ []
      → answered 424 answer ≡ []
      → Answered ps answer

make_propstats-others :
    (xs ys : List Property) (c a b : ℕ) (e f : Bytes)
    → (a == c) ≡ false
    → (b == c) ≡ false
    → answered c (
        make_propstats
          (record { props = xs; status = a; xml_error = e })
          (record { props = ys; status = b; xml_error = f }))
      ≡ []
unfolding make_propstats
make_propstats-others [] [] c a b e f h k = same_branches (200 == c)
make_propstats-others [] (y ∷ ys) c a b e f h k = rw k refl
make_propstats-others (x ∷ xs) [] c a b e f h k = rw h refl
make_propstats-others (x ∷ xs) (y ∷ ys) c a b e f h k = rw (h, k) refl

refused-Answered :
    (patches : List Proppatch)
    → conflicts patches ≡ true
    → let r = refuse patches (forbidden_propstat, empty_propstat 424) in
      Answered (all_props patches) (make_propstats r.0 r.1)
refused-Answered patches bad =
    let r = refuse patches (forbidden_propstat, empty_propstat 424) in
    let looped = refuse-names patches (forbidden_propstat, empty_propstat 424) in
    let apart : (r.0.status == r.1.status) ≡ false = rw (looped.2, looped.3) refl in
    let apart' : (r.1.status == r.0.status) ≡ false = rw (looped.2, looped.3) refl in
    let made =
      make_propstats-names r.0.props r.1.props r.0.status r.1.status r.0.xml_error r.1.xml_error
        apart apart' in
    let other : (r.0.status == 200) ≡ false = rw looped.2 refl in
    let other' : (r.1.status == 200) ≡ false = rw looped.3 refl in
    refused (sym (conflicts-any_live patches) ∙ bad)
      (ap (λ s. answered s (make_propstats r.0 r.1)) (sym looped.2) ∙ made.0 ∙ looped.0)
      (ap (λ s. answered s (make_propstats r.0 r.1)) (sym looped.3) ∙ made.1 ∙ looped.1)
      (make_propstats-others r.0.props r.1.props 200 r.0.status r.1.status r.0.xml_error
        r.1.xml_error other other')

accepted-Answered :
    (patches : List Proppatch)
    → conflicts patches ≡ false
    → Answered (all_props patches) (accept patches (empty_propstat 200) ∷ [])
accepted-Answered patches good =
    let x = accept patches (empty_propstat 200) in
    let looped = accept-names patches (empty_propstat 200) in
    accepted (sym (conflicts-any_live patches) ∙ good) (rw (looped.1, append-nil) looped.0)
      (rw looped.1 refl) (rw looped.1 refl)

-- patch is all or nothing: if one of the properties is live, those that are live are answered with
-- 403, the others with 424, and none with 200, and else all with 200.
pub patch-Answered : (patches : List Proppatch) → Answered (all_props patches) (patch patches)
unfolding patch
patch-Answered patches = elim (Bool-cases (conflicts patches)) [
  | inl bad ↦ rw bad (refused-Answered patches bad)
  | inr good ↦ rw good (accepted-Answered patches good)
]
