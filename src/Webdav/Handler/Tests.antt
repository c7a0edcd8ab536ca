-- ===== src/Webdav/Handler/Tests.antt =====
-- Requests to a file system with a folder and a file in it, below the prefix /dav.
use cloudreve.Prelude.{
  ℕ, has_prefix, index_byte, ◌^◌, ◌<◌, ◌≡◌, ◌↔◌, refl, Bool, true, false, Option, none, some, [],
  ◌∷◌, ◌++◌, pos, negsuc, Bytes, codes, eqb, if◌then◌else◌, ◌==◌, inl, inr, Assoc, find, nat_eq,
  bytes_eq,
}
use cloudreve.Webdav.Lock.State.{MemLs, new_mem_ls}
use cloudreve.Webdav.Props.{FileInfo, Env}
use cloudreve.Webdav.Timeout.{parse_seconds, parse_timeout}
use cloudreve.Webdav.Handler.Request.{
  answer, Request, set_header, write_header, xml_declaration, begin_multistatus, fail, err_other,
  end_multistatus, content, Propfind, decoded, eof, empty, FileSystem, Std, strip_prefix,
  is_path_exist, parse_depth,
}
use cloudreve.Webdav.Handler.Bodies.{read_propfind}
use cloudreve.Webdav.Handler.Replies.{format_seconds}
use cloudreve.Webdav.Handler.Files.{move_files}
use cloudreve.Webdav.Handler.Resources.{handle_put}
use cloudreve.Webdav.Handler.Transfers.{copy_or_move}
use cloudreve.Webdav.Handler.Listing.{handle_propfind}
use cloudreve.Webdav.Handler.Walks.{listing}
use cloudreve.Webdav.Handler.Listed.{responses_for, listed, handle_propfind-Listed}
use cloudreve.Webdav.Handler.Serve.{handle, on_copy_move}
use cloudreve.Webdav.Handler.Refused.{one_of}
use cloudreve.Webdav.Handler.Statuses.{refusals}
use cloudreve.Webdav.Handler.Unchanged.{untouched, handle-untouched}
use cloudreve.Webdav.Handler.Locks.{parse_timeout-format_seconds}
use cloudreve.Webdav.Handler.Puts.{IsPut, handle_put-IsPut}
use cloudreve.Webdav.Handler.Copies.{IsMove, copy_or_move-same, move_files-IsMove}
use cloudreve.Webdav.Handler.Accepted.{IsPropfind, read_propfind-IsPropfind}

abbrev has_slash : Bytes → Bool
has_slash [] = false
has_slash (c ∷ s) = let rest = has_slash s in if c == b'/' then true else rest

abbrev base_of : Bytes → Bytes
base_of [] = []
base_of (c ∷ s) =
    let rest = base_of s in if has_slash s then rest else (if c == b'/' then s else c ∷ s)

abbrev before_base : Bytes → Bytes
before_base [] = []
before_base (c ∷ s) = let rest = before_base s in if has_slash s then c ∷ rest else []

abbrev or_root : Bytes → Bytes
or_root [] = codes "/"
or_root (c ∷ s) = c ∷ s

abbrev simple_std : Std
simple_std = record {
  parse_url = λ s. some s;
  path_dir = λ s. or_root (before_base s);
  path_base = base_of;
  path_join = λ a b. a ++ (b'/' ∷ b);
  trim_space = λ s. s;
  escaped_path = λ s. s;
  http_status_text = λ n. [];
  takes = λ out. true;
  decode_propfind = λ s. eof true;
  decode_proppatch = λ s. eof true;
}

abbrev folder : FileInfo
folder = record {
  id = 2;
  size = 0;
  name = codes "docs";
  mod_time = 7;
  is_dir = true;
  position = codes "/";
}

abbrev file : FileInfo
file = record {
  id = 3;
  size = 9;
  name = codes "a";
  mod_time = 7;
  is_dir = false;
  position = codes "/docs";
}

abbrev Files : Type 0
Files = Assoc Bytes FileInfo

abbrev simple_find : Bool → Bytes → Files → Option FileInfo
simple_find is_dir path [] = none
simple_find is_dir path ((p, f) ∷ files) =
    let rest = simple_find is_dir path files in
    if eqb p path
    then (if is_dir
        then (if f.is_dir then some f else none)
        else (if f.is_dir then none else some f))
    else rest

-- Changes drop the files, which is enough to tell them from requests that change nothing.
abbrev simple_fs : FileSystem Files
simple_fs = record {
  is_path_exist = simple_find true;
  is_file_exist = simple_find false;
  recycle = λ s. s;
  preview = λ f s. (content f, s);
  delete = λ dirs files s. (none, []);
  upload = λ u s. (inr file, (u.virtual_path, file) ∷ s);
  create_directory = λ path s. (none, (path, folder) ∷ s);
  copy = λ dirs files src dst s. (none, (dst, file) ∷ s);
  move = λ dirs files src dst s. (none, (dst, file) ∷ []);
  rename = λ dirs files name s. (none, (name, file) ∷ s);
  only_soft_links = λ f s. false;
  children = λ f s. (file ∷ [], empty);
}

abbrev plain : Env
plain = record {
  format_time = λ t. [];
  type_by_name = λ n. [];
  hex = λ n. [];
  escape_text = λ s. s;
}

abbrev stored : Files
stored = (codes "/docs", folder) ∷ (codes "/docs/a", file) ∷ []

abbrev request : Bytes → Bytes → Bytes → Request
request method path destination = record {
  method = method;
  path = path;
  destination = destination;
  depth = [];
  overwrite = [];
  timeout = [];
  content_length = pos 0;
  content_length_header = codes "9";
  content_type = [];
  body = [];
}

abbrev prefix : Bytes
prefix = codes "/dav"

abbrev no_locks : MemLs
no_locks = new_mem_ls 0

abbrev everything : Propfind
everything = record { allprop = true; propname = false; prop = none; include = none }

abbrev to_list : Request
to_list = request (codes "PROPFIND") (codes "/dav/docs") []

listed_paths :
    listed simple_fs simple_std plain prefix to_list (codes "/docs") folder stored
    ≡ (codes "/docs", folder) ∷ (codes "/docs/a", file) ∷ []
unfolding listed listing
listed_paths = refl

handle_propfind-Listed_example :
    handle_propfind simple_fs simple_std plain prefix no_locks to_list stored ≡ record {
      reply = answer 0;
      output =
          set_header (codes "Content-Type") (codes "text/xml; charset=utf-8")
          ∷ write_header 207
          ∷ xml_declaration
          ∷ begin_multistatus
          ∷ (responses_for simple_std plain prefix everything
                (listed simple_fs simple_std plain prefix to_list (codes "/docs") folder stored)
              ++ (end_multistatus ∷ []));
      store = stored;
    }
unfolding strip_prefix is_path_exist parse_depth read_propfind has_prefix eqb
handle_propfind-Listed_example =
    handle_propfind-Listed simple_fs simple_std plain prefix no_locks to_list (codes "/docs") folder
      everything stored (λ out. refl) refl refl refl refl

abbrev to_delete : Request
to_delete = request (codes "DELETE") (codes "/dav/docs/a") []

abbrev one_user : Assoc ℕ MemLs
one_user = (1, no_locks) ∷ []

-- A client that takes nothing.
abbrev broken_std : Std
broken_std = record simple_std { takes = λ out. false }

listing_fails :
    (handle_propfind simple_fs broken_std plain prefix no_locks to_list stored).reply
    ≡ fail 500 err_other
unfolding handle_propfind has_prefix eqb find
listing_fails = refl

abbrev to_itself : Request
to_itself = request (codes "MOVE") (codes "/dav/docs/a") (codes "/dav/docs/a")

handle-untouched_example :
    (handle simple_fs simple_std plain prefix [] [] no_locks on_copy_move to_itself stored).store
    ≡ untouched simple_fs on_copy_move stored
unfolding handle one_of refusals eqb has_prefix
handle-untouched_example =
    handle-untouched simple_fs simple_std plain prefix [] [] no_locks on_copy_move to_itself stored
      refl

parse_timeout-format_seconds_example :
    (60000000000 < 2 ^ 63)
    × (parse_seconds (format_seconds (pos 60000000000)) ≡ some (pos 60000000000))
unfolding parse_timeout eqb index_byte has_prefix
parse_timeout-format_seconds_example =
    parse_timeout-format_seconds (λ s. s) (codes "Second-60") 60000000000 refl

-- A lock for ever is announced as one of no time.
announces_no_time : format_seconds (negsuc 0) ≡ codes "0"
unfolding format_seconds
announces_no_time = refl

handle_put-IsPut_example :
    IsPut simple_fs simple_std prefix
      (λ f. [])
      (request (codes "PUT") (codes "/dav/docs/a") [])
      stored
      (handle_put simple_fs simple_std prefix
        (λ f. [])
        (request (codes "PUT") (codes "/dav/docs/a") [])
        stored)
handle_put-IsPut_example =
    handle_put-IsPut simple_fs simple_std prefix (λ f. [])
      (request (codes "PUT") (codes "/dav/docs/a") []) stored

abbrev to_copy : Bytes → Request
to_copy name = request (codes "COPY") (codes "/dav/docs/a") (codes "/dav/" ++ name)

copy_or_move-same_example :
    copy_or_move simple_fs simple_std
      (to_copy (codes "b"))
      file
      (codes "/docs/a")
      (codes "/b")
      stored
    ≡ copy_or_move simple_fs simple_std
        (to_copy (codes "c"))
        file
        (codes "/docs/a")
        (codes "/c")
        stored
unfolding eqb parse_depth
copy_or_move-same_example =
    copy_or_move-same simple_fs simple_std (to_copy (codes "b")) (to_copy (codes "c")) file
      (codes "/docs/a") (codes "/b") (codes "/c") stored refl refl refl refl refl

move_files-IsMove_example :
    IsMove simple_fs simple_std file
      (codes "/docs/b")
      stored
      (move_files simple_fs simple_std file (codes "/docs/b") true stored)
move_files-IsMove_example =
    move_files-IsMove simple_fs simple_std file (codes "/docs/b") stored true

read_propfind-IsPropfind_example :
    (read_propfind (decoded everything) ≡ inl everything) ↔ IsPropfind everything
read_propfind-IsPropfind_example = read_propfind-IsPropfind everything
