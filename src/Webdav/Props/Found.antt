-- ===== src/Webdav/Props/Found.antt =====
-- Which properties props and allprop find, and with which status.
use mathlib.Core.List.{append-nil, append_assoc}
use cloudreve.Prelude.{
  ℕ, ◌==◌, ==_refl, ◌≡◌, refl, sym, ap, ◌∙◌, Bool, true, false, not, none, some, List, [], ◌∷◌,
  ◌++◌, Bytes, codes, eqb, if◌then◌else◌, Bool-cases, Option-cases, inl, inr, Assoc, find, bytes_eq,
}
use cloudreve.Webdav.Props.{
  FileInfo, Name, Property, Propstat, Env, FindFn, LiveProp, run_find, empty_propstat,
  make_propstats, live_prop, live_props, finder, finder_in, props_loop, props, names_in, propnames,
  same_name, has_name,
}

-- The names among `names` for which the test holds.
abbrev pub select {ℓ} : {A : Type ℓ} → (A → Bool) → List A → List A
select p [] = []
select p (n ∷ names) = let rest = select p names in if p n then n ∷ rest else rest

abbrev pub names_of : List Property → List Name
names_of [] = []
names_of (p ∷ ps) = p.xml_name ∷ names_of ps

-- The names that an answer has with a status, in its order.
abbrev pub answered : ℕ → List Propstat → List Name
answered status [] = []
answered status (x ∷ rest) =
    let more = answered status rest in if x.status == status then names_of x.props ++ more else more

-- The name has a function that finds it, for this kind of resource.
abbrev pub is_found : Bool → Name → Bool
is_found is_dir n = elim (finder is_dir n) [ some f ↦ true | none ↦ false ]

abbrev pub is_missing : Bool → Name → Bool
is_missing is_dir n = not (is_found is_dir n)

pub names_of-append : (xs ys : List Property) → names_of (xs ++ ys) ≡ names_of xs ++ names_of ys
names_of-append [] ys = refl
names_of-append (x ∷ xs) ys = ap (λ l. x.xml_name ∷ l) (names_of-append xs ys)

pub select-append {ℓ} :
    {A : Type ℓ} (p : A → Bool) (xs ys : List A) → select p (xs ++ ys) ≡ select p xs ++ select p ys
select-append p [] ys = refl
select-append p (x ∷ xs) ys = elim (Bool-cases (p x)) [
  | inl e ↦ rw e (ap (λ l. x ∷ l) (select-append p xs ys))
  | inr e ↦ rw e (select-append p xs ys)
]

pub snoc-names :
    (ps : List Property) (p : Property) (more : List Name)
    → names_of (ps ++ (p ∷ [])) ++ more ≡ names_of ps ++ (p.xml_name ∷ more)
snoc-names ps p more = rw (names_of-append ps) (append_assoc (names_of ps) (p.xml_name ∷ []) more)

-- What the loop adds to the names of both lists.
props_loop-names :
    (env : Env) (fi : FileInfo) (names : List Name) (ok not_found : Propstat)
    → let r = props_loop env fi names ok not_found in
      (names_of r.0.props ≡ names_of ok.props ++ select (is_found fi.is_dir) names)
      × (names_of r.1.props ≡ names_of not_found.props ++ select (is_missing fi.is_dir) names)
      × (r.0.status ≡ ok.status)
      × (r.1.status ≡ not_found.status)
unfolding props_loop
props_loop-names env fi [] ok not_found = (sym (append-nil _), sym (append-nil _), refl, refl)
props_loop-names env fi (n ∷ names) ok not_found = elim (Option-cases (finder fi.is_dir n)) [
  | inl e ↦
      let added = record not_found {
        props = not_found.props ++ (record { xml_name = n; inner_xml = [] } ∷ []);
      } in
      let rest = props_loop-names env fi names ok added in
      let lacks : select (is_found fi.is_dir) (n ∷ names) ≡ select (is_found fi.is_dir) names =
        rw (is_found, e) refl in
      let has : select (is_missing fi.is_dir) (n ∷ names)
          ≡ n ∷ select (is_missing fi.is_dir) names =
        rw (is_missing, is_found, e) refl in
      rw (props_loop, e)
        (
          rest.0 ∙ ap (λ l. names_of ok.props ++ l) (sym lacks),
          rest.1
              ∙ snoc-names not_found.props _ _
              ∙ ap (λ l. names_of not_found.props ++ l) (sym has),
          rest.2,
          rest.3,
        )
  | inr (f, e) ↦
      let added = record ok {
        props = ok.props ++ (record { xml_name = n; inner_xml = run_find env f fi } ∷ []);
      } in
      let rest = props_loop-names env fi names added not_found in
      let has : select (is_found fi.is_dir) (n ∷ names) ≡ n ∷ select (is_found fi.is_dir) names =
        rw (is_found, e) refl in
      let lacks : select (is_missing fi.is_dir) (n ∷ names) ≡ select (is_missing fi.is_dir) names =
        rw (is_missing, is_found, e) refl in
      rw (props_loop, e)
        (
          rest.0 ∙ snoc-names ok.props _ _ ∙ ap (λ l. names_of ok.props ++ l) (sym has),
          rest.1 ∙ ap (λ l. names_of not_found.props ++ l) (sym lacks),
          rest.2,
          rest.3,
        )
]

abbrev no_names : List Name
no_names = []

pub same_branches : (b : Bool) → (if b then no_names else no_names) ≡ no_names
same_branches true = refl
same_branches false = refl

-- The answer of two propstats of unlike status.
pub make_propstats-names :
    (xs ys : List Property) (a b : ℕ) (e f : Bytes)
    → (a == b) ≡ false
    → (b == a) ≡ false
    → let answer =
        make_propstats
          (record { props = xs; status = a; xml_error = e })
          (record { props = ys; status = b; xml_error = f }) in
      (answered a answer ≡ names_of xs) × (answered b answer ≡ names_of ys)
unfolding make_propstats
make_propstats-names [] [] a b e f h k = (same_branches (200 == a), same_branches (200 == b))
make_propstats-names [] (y ∷ ys) a b e f h k = (rw k refl, rw (==_refl b, append-nil) refl)
make_propstats-names (x ∷ xs) [] a b e f h k = (rw (==_refl a, append-nil) refl, rw h refl)
make_propstats-names (x ∷ xs) (y ∷ ys) a b e f h k =
    (rw (==_refl a, k, append-nil) refl, rw (==_refl b, h, append-nil) refl)

-- props answers a name with 200 if a function finds it for the kind of the resource, and with 404 if
-- none does, in the order of the request.
pub props-answered :
    (env : Env) (fi : FileInfo) (names : List Name)
    → (answered 200 (props env fi names) ≡ select (is_found fi.is_dir) names)
      × (answered 404 (props env fi names) ≡ select (is_missing fi.is_dir) names)
unfolding props
props-answered env fi names =
    let r = props_loop env fi names (empty_propstat 200) (empty_propstat 404) in
    let looped = props_loop-names env fi names (empty_propstat 200) (empty_propstat 404) in
    let apart : (r.0.status == r.1.status) ≡ false = rw (looped.2, looped.3) refl in
    let apart' : (r.1.status == r.0.status) ≡ false = rw (looped.2, looped.3) refl in
    let made =
      make_propstats-names r.0.props r.1.props r.0.status r.1.status r.0.xml_error r.1.xml_error
        apart apart' in
    (
      ap (λ s. answered s (make_propstats r.0 r.1)) (sym looped.2) ∙ made.0 ∙ looped.0,
      ap (λ s. answered s (make_propstats r.0 r.1)) (sym looped.3) ∙ made.1 ∙ looped.1,
    )

names_in-found :
    (is_dir : Bool) (l : Bytes) (q : LiveProp) (m : Assoc Bytes LiveProp) (f : FindFn)
    → finder_in is_dir (some q) ≡ some f
    → names_in is_dir ((l, q) ∷ m) ≡ record { space = codes "DAV:"; local = l } ∷ names_in is_dir m
unfolding names_in
names_in-found is_dir l q m f e = rw (names_in, e) refl

names_in-missing :
    (is_dir : Bool) (l : Bytes) (q : LiveProp) (m : Assoc Bytes LiveProp)
    → finder_in is_dir (some q) ≡ none
    → names_in is_dir ((l, q) ∷ m) ≡ names_in is_dir m
unfolding names_in
names_in-missing is_dir l q m e = rw (names_in, e) refl

has_name-same :
    (n k : Name) (names : List Name) → same_name n k ≡ true → has_name n (k ∷ names) ≡ true
unfolding has_name
has_name-same n k names e = rw (has_name, e) refl

has_name-more :
    (n k : Name) (names : List Name) → has_name n names ≡ true → has_name n (k ∷ names) ≡ true
unfolding has_name
has_name-more n k names e = elim (Bool-cases (same_name n k)) [
  | inl s ↦ rw (has_name, s) refl
  | inr s ↦ rw (has_name, s) e
]

-- A name that a function finds is one of those of propnames.
names_in-has :
    (is_dir : Bool) (m : Assoc Bytes LiveProp) (n : Name) (p : LiveProp) (f : FindFn)
    → eqb n.space (codes "DAV:") ≡ true
    → find n.local m ≡ some p
    → finder_in is_dir (some p) ≡ some f
    → has_name n (names_in is_dir m) ≡ true
unfolding find same_name
names_in-has is_dir [] n p f dav e found = let no_way : ⊥ = cc in elim no_way [ ]
names_in-has is_dir ((l, q) ∷ m) n p f dav e found = elim (Bool-cases (eqb n.local l)) [
  | inl same ↦
      let here : some q ≡ some p = sym (rw same refl) ∙ e in
      let shown : finder_in is_dir (some q) ≡ some f = ap (finder_in is_dir) here ∙ found in
      ap (has_name n) (names_in-found is_dir l q m f shown)
      ∙ has_name-same n _ (names_in is_dir m) (rw (same_name, dav, same) refl)
  | inr other ↦
      let later : find n.local m ≡ some p = sym (rw other refl) ∙ e in
      let rest = names_in-has is_dir m n p f dav later found in
      elim (Option-cases (finder_in is_dir (some q))) [
        | inl none_here ↦ ap (has_name n) (names_in-missing is_dir l q m none_here) ∙ rest
        | inr (g, some_here) ↦
            ap (has_name n) (names_in-found is_dir l q m g some_here)
            ∙ has_name-more n _ (names_in is_dir m) rest
      ]
]

lost_name :
    (is_dir : Bool) (n : Name) {b : Bool}
    → is_found is_dir n ≡ true
    → finder is_dir n ≡ none
    → b ≡ true
lost_name is_dir n h e =
    let f : is_found is_dir n ≡ false = rw (is_found, e) refl in
    let no_way : ⊥ = cc in elim no_way [ ]

pub has_name-propnames :
    (fi : FileInfo) (n : Name) → is_found fi.is_dir n ≡ true → has_name n (propnames fi) ≡ true
unfolding finder live_prop propnames
has_name-propnames fi n h = elim (Bool-cases (eqb n.space (codes "DAV:"))) [
  | inl dav ↦ elim (Option-cases (find n.local live_props)) [
    | inl e ↦ lost_name fi.is_dir n h (rw (dav, e) refl)
    | inr (p, e) ↦ elim (Option-cases (finder_in fi.is_dir (some p))) [
      | inl e' ↦ lost_name fi.is_dir n h (rw (dav, e, e') refl)
      | inr (f, e') ↦ names_in-has fi.is_dir live_props n p f dav e e'
    ]
  ]
  | inr other ↦ lost_name fi.is_dir n h (rw other refl)
]
