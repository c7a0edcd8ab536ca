-- ===== src/Webdav/Props.antt =====
-- pkg/webdav/prop.go: the properties of a resource. Times, media types, hexadecimal numbers and the
-- escapes of XML, which packages of Go write, are functions of an environment.
pub mod Found
pub mod All
pub mod Patched
mod Tests
use cloudreve.Prelude.{
  ℕ, ◌≡◌, refl, Bool, true, false, not, ◌&&◌, ◌||◌, Option, none, some, List, [], ◌∷◌, ◌++◌, Bytes,
  codes, eqb, format_uint, leb, ◌==◌, if◌then◌else◌, Eq, Assoc, find, bytes_eq, eqb_refl, eqb→≡,
}
use cloudreve.Webdav.Path.{slash_clean, slash}

-- What a FileInfo says of a file or a folder, with its identifier.
pub record FileInfo : Type 0 where
  pub id : ℕ
  pub size : ℕ
  pub name : Bytes
  pub mod_time : ℕ
  pub is_dir : Bool
  pub position : Bytes

-- xml.Name; the namespaces that matter here are "DAV:" and the others.
pub record Name : Type 0 where
  pub space : Bytes
  pub local : Bytes

unfoldable pub same_name : Name → Name → Bool
same_name a b = eqb a.space b.space && eqb a.local b.local

pub record Property : Type 0 where
  pub xml_name : Name
  pub inner_xml : Bytes

pub record Propstat : Type 0 where
  pub props : List Property
  pub status : ℕ
  pub xml_error : Bytes

pub record Proppatch : Type 0 where
  pub remove : Bool
  pub props : List Property

abbrev pub empty_propstat : ℕ → Propstat
empty_propstat status = record { props = []; status = status; xml_error = [] }

abbrev pub add_propstat : Propstat → List Propstat → List Propstat
add_propstat x rest = elim x.props [ [] ↦ rest | p ∷ ps ↦ x ∷ rest ]

abbrev pub at_least_one : List Propstat → List Propstat
at_least_one [] = empty_propstat 200 ∷ []
at_least_one (x ∷ rest) = x ∷ rest

unfoldable pub make_propstats : Propstat → Propstat → List Propstat
make_propstats x y = at_least_one (add_propstat x (add_propstat y []))

pub record Env : Type 0 where
  -- `Format(http.TimeFormat)`, `mime.TypeByExtension(filepath.Ext(name))`, `%x` and xml.EscapeText
  pub format_time : ℕ → Bytes
  pub type_by_name : Bytes → Bytes
  pub hex : ℕ → Bytes
  pub escape_text : Bytes → Bytes

abbrev pub is_plain : ℕ → Bool
is_plain c =
    c == b' '
    || c == b'_'
    || leb b'+' c && leb c b'9'
    || leb b'A' c && leb c b'Z'
    || leb b'a' c && leb c b'z'

abbrev pub all_plain : Bytes → Bool
all_plain [] = true
all_plain (c ∷ s) = is_plain c && all_plain s

unfoldable pub escape_xml : Env → Bytes → Bytes
escape_xml env s = if all_plain s then s else env.escape_text s

-- The functions that find a live property.
pub data FindFn : Type 0 where
  find_resource_type find_display_name find_content_length find_last_modified : FindFn
  find_content_type find_etag find_supported_lock : FindFn

unfoldable pub run_find : Env → FindFn → FileInfo → Bytes
unfolding escape_xml
run_find env find_resource_type fi =
    if fi.is_dir then codes "<D:collection xmlns:D=\"DAV:\"/>" else []
run_find env find_display_name fi =
    if eqb (slash_clean fi.name) slash then [] else escape_xml env fi.name
run_find env find_content_length fi = format_uint fi.size
run_find env find_last_modified fi = env.format_time fi.mod_time
run_find env find_content_type fi = env.type_by_name fi.name
run_find env find_etag fi = b'"' ∷ (env.hex fi.mod_time ++ env.hex fi.size ++ (b'"' ∷ []))
run_find env find_supported_lock fi =
    codes "<D:lockentry xmlns:D=\"DAV:\">"
    ++ codes "<D:lockscope><D:exclusive/></D:lockscope>"
    ++ codes "<D:locktype><D:write/></D:locktype>"
    ++ codes "</D:lockentry>"

-- An entry of liveProps, with nil as `none`.
pub record LiveProp : Type 0 where
  pub find_fn : Option FindFn
  pub dir : Bool

abbrev live : Option FindFn → Bool → LiveProp
live f dir = record { find_fn = f; dir = dir }

-- The entries of the namespace "DAV:", by their local names.
abbrev pub live_props : Assoc Bytes LiveProp
live_props =
    (codes "resourcetype", live (some find_resource_type) true)
    ∷ (codes "displayname", live (some find_display_name) true)
    ∷ (codes "getcontentlength", live (some find_content_length) false)
    ∷ (codes "getlastmodified", live (some find_last_modified) true)
    ∷ (codes "creationdate", live none false)
    ∷ (codes "getcontentlanguage", live none false)
    ∷ (codes "getcontenttype", live (some find_content_type) false)
    ∷ (codes "getetag", live (some find_etag) false)
    ∷ (codes "lockdiscovery", live none false)
    ∷ (codes "supportedlock", live (some find_supported_lock) true)
    ∷ []

-- `liveProps[name]`
unfoldable pub live_prop : Name → Option LiveProp
live_prop n = if eqb n.space (codes "DAV:") then find n.local live_props else none

-- The function that finds a property of this resource, if there is one.
abbrev pub finder_in : Bool → Option LiveProp → Option FindFn
finder_in is_dir none = none
finder_in is_dir (some p) = if p.dir || not is_dir then p.find_fn else none

unfoldable pub finder : Bool → Name → Option FindFn
unfolding live_prop
finder is_dir n = finder_in is_dir (live_prop n)

-- The loop of props over the names, with the properties found and not found.
unfoldable pub props_loop : Env → FileInfo → List Name → Propstat → Propstat → Propstat × Propstat
unfolding finder run_find
props_loop env fi [] ok not_found = (ok, not_found)
props_loop env fi (n ∷ names) ok not_found = elim (finder fi.is_dir n) [
  | some f ↦
      props_loop env fi names
        (record ok {
          props = ok.props ++ (record { xml_name = n; inner_xml = run_find env f fi } ∷ []);
        })
        not_found
  | none ↦ props_loop env fi names ok (record not_found {
    props = not_found.props ++ (record { xml_name = n; inner_xml = [] } ∷ []);
  })
]

unfoldable pub props : Env → FileInfo → List Name → List Propstat
unfolding props_loop make_propstats
props env fi names =
    let r = props_loop env fi names (empty_propstat 200) (empty_propstat 404) in
    make_propstats r.0 r.1

-- The loop of propnames over the live properties.
unfoldable pub names_in : Bool → Assoc Bytes LiveProp → List Name
names_in is_dir [] = []
names_in is_dir ((l, p) ∷ rest) =
    let more = names_in is_dir rest in
    elim (finder_in is_dir (some p)) [
      | some f ↦ record { space = codes "DAV:"; local = l } ∷ more
      | none ↦ more
    ]

unfoldable pub propnames : FileInfo → List Name
unfolding names_in
propnames fi = names_in fi.is_dir live_props

unfoldable pub has_name : Name → List Name → Bool
unfolding same_name
has_name n [] = false
has_name n (m ∷ names) = if same_name n m then true else has_name n names

-- The names to include that are not there already.
unfoldable pub included : List Name → List Name → List Name
unfolding has_name
included names [] = []
included names (n ∷ include) =
    let rest = included names include in if has_name n names then rest else n ∷ rest

unfoldable pub allprop : Env → FileInfo → List Name → List Propstat
unfolding props propnames included
allprop env fi include = props env fi (propnames fi ++ included (propnames fi) include)

abbrev pub is_live : Property → Bool
is_live p = elim (live_prop p.xml_name) [ some l ↦ true | none ↦ false ]

unfoldable pub any_live : List Property → Bool
unfolding live_prop
any_live [] = false
any_live (p ∷ ps) = if is_live p then true else any_live ps

unfoldable pub conflicts : List Proppatch → Bool
unfolding any_live
conflicts [] = false
conflicts (patch ∷ patches) = if any_live patch.props then true else conflicts patches

abbrev pub name_only : Property → Property
name_only p = record p { inner_xml = [] }

abbrev pub append_name : Propstat → Property → Propstat
append_name x p = record x { props = x.props ++ (name_only p ∷ []) }

-- The loop over the properties of a patch, where a live one is forbidden and the others fail with it.
unfoldable pub refuse_props : List Property → Propstat × Propstat → Propstat × Propstat
unfolding live_prop
refuse_props [] (forbidden, failed) = (forbidden, failed)
refuse_props (p ∷ ps) (forbidden, failed) =
    refuse_props ps
      (if is_live p then (append_name forbidden p, failed) else (forbidden, append_name failed p))

unfoldable pub refuse : List Proppatch → Propstat × Propstat → Propstat × Propstat
unfolding refuse_props
refuse [] r = r
refuse (patch ∷ patches) r = refuse patches (refuse_props patch.props r)

unfoldable pub accept_props : List Property → Propstat → Propstat
accept_props [] x = x
accept_props (p ∷ ps) x = accept_props ps (append_name x p)

unfoldable pub accept : List Proppatch → Propstat → Propstat
unfolding accept_props
accept [] x = x
accept (patch ∷ patches) x = accept patches (accept_props patch.props x)

abbrev pub forbidden_propstat : Propstat
forbidden_propstat = record {
  props = [];
  status = 403;
  xml_error = codes "<D:cannot-modify-protected-property xmlns:D=\"DAV:\"/>";
}

unfoldable pub patch : List Proppatch → List Propstat
unfolding conflicts refuse accept make_propstats
patch patches =
    if conflicts patches
    then (let r = refuse patches (forbidden_propstat, empty_propstat 424) in make_propstats r.0 r.1)
    else accept patches (empty_propstat 200) ∷ []
