-- ===== src/Webdav/Props/Tests.antt =====
-- The properties of a folder and of a file.
use cloudreve.Prelude.{◌≡◌, refl, true, false, List, [], ◌∷◌, Bytes, codes, eqb, find}
use cloudreve.Webdav.Props.{
  FileInfo, Name, Proppatch, Env, props, finder, live_prop, propnames, names_in, allprop, patch,
}
use cloudreve.Webdav.Props.Found.{answered, select, is_found, is_missing, props-answered}
use cloudreve.Webdav.Props.All.{is_new, allprop-answered}
use cloudreve.Webdav.Props.Patched.{Answered, all_props, patch-Answered}

abbrev dav : Bytes → Name
dav local = record { space = codes "DAV:"; local = local }

abbrev folder : FileInfo
folder = record {
  id = 1;
  size = 0;
  name = codes "docs";
  mod_time = 7;
  is_dir = true;
  position = codes "/";
}

abbrev plain : Env
plain = record {
  format_time = λ t. [];
  type_by_name = λ n. [];
  hex = λ n. [];
  escape_text = λ s. s;
}

abbrev asked : List Name
asked = dav (codes "displayname") ∷ dav (codes "getcontentlength") ∷ []

-- A folder has a name and no length.
folder_names : select (is_found true) asked ≡ dav (codes "displayname") ∷ []
unfolding finder live_prop find eqb
folder_names = refl

names_of_folder :
    propnames folder
    ≡ dav (codes "resourcetype")
      ∷ dav (codes "displayname")
      ∷ dav (codes "getlastmodified")
      ∷ dav (codes "supportedlock")
      ∷ []
unfolding propnames names_in
names_of_folder = refl

props-answered_example :
    (answered 200 (props plain folder asked) ≡ select (is_found true) asked)
    × (answered 404 (props plain folder asked) ≡ select (is_missing true) asked)
props-answered_example = props-answered plain folder asked

allprop-answered_example :
    (answered 200 (allprop plain folder asked) ≡ propnames folder)
    × (answered 404 (allprop plain folder asked) ≡ select (is_new folder) asked)
allprop-answered_example = allprop-answered plain folder asked

abbrev patches : List Proppatch
patches =
    record {
      remove = false;
      props =
          record { xml_name = dav (codes "getetag"); inner_xml = [] }
          ∷ record {
            xml_name = record { space = []; local = codes "author" };
            inner_xml = codes "me";
          }
          ∷ [];
    }
    ∷ []

patch-Answered_example : Answered (all_props patches) (patch patches)
patch-Answered_example = patch-Answered patches
