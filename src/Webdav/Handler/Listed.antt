-- ===== src/Webdav/Handler/Listed.antt =====
-- The answers of PROPFIND, one for each resource that a listing has.
use mathlib.Core.List.{append-nil, append_assoc}
use cloudreve.Prelude.{
  ◌≡◌, refl, sym, ap, ◌∙◌, true, false, none, some, List, [], ◌∷◌, ◌++◌, ℤ, Bytes, codes,
  if◌then◌else◌, Bool-cases, inl, inr,
}
use cloudreve.Webdav.Lock.State.{MemLs}
use cloudreve.Webdav.Props.{FileInfo, Env}
use cloudreve.Webdav.Handler.Request.{
  answer, Request, Output, set_header, write_header, xml_declaration, begin_multistatus, respond,
  end_multistatus, Response, Propfind, FileSystem, Std, strip_prefix, is_path_exist, tree, Forest,
}
use cloudreve.Webdav.Handler.Bodies.{read_propfind}
use cloudreve.Webdav.Handler.Replies.{
  Writer, new_writer, make_propstat_response, is_valid_response, declared, error_of_write,
  add_element, then_element, start_multistatus, write_response, close,
}
use cloudreve.Webdav.Handler.Transfers.{depth_of, is_invalid}
use cloudreve.Webdav.Handler.Listing.{
  stop_at, found_by, href_of, visit_resource, list_at, handle_propfind,
}
use cloudreve.Webdav.Handler.Walks.{listing, visit_all, walk_fs-visits}
use cloudreve.Webdav.Handler.Propstats.{found_by_some, response-Valid}

-- What PROPFIND answers for a resource.
unfoldable pub response_for : Std → Env → Bytes → Propfind → Bytes → FileInfo → Response
response_for std env prefix pf path info =
    make_propstat_response std (href_of std prefix path info) (found_by env pf info)

unfoldable pub responses_for : Std → Env → Bytes → Propfind → List (Bytes × FileInfo) → List Output
unfolding response_for
responses_for std env prefix pf [] = []
responses_for std env prefix pf ((path, info) ∷ rest) =
    respond (response_for std env prefix pf path info) ∷ responses_for std env prefix pf rest

unfoldable started : Writer → Writer
started w =
    if w.begun
    then w
    else record { begun = true; output = (w.output ++ declared) ++ (begin_multistatus ∷ []) }

unfoldable write_valid : Response → Writer → Writer
unfolding started
write_valid r w = record {
  begun = (started w).begun;
  output = (started w).output ++ (respond r ∷ []);
}

module _ (std : Std) (env : Env) (prefix : Bytes) (pf : Propfind) where
  abbrev step : Bytes → FileInfo → Writer → Writer
  step path info w = write_valid (response_for std env prefix pf path info) w

-- A multistatus with these elements.
abbrev whole : List Output → Writer
whole elements = record {
  begun = true;
  output = (declared ++ (begin_multistatus ∷ elements)) ++ (end_multistatus ∷ []);
}

-- A client that takes what is written.
module _ (std : Std) (env : Env) (prefix : Bytes) (pf : Propfind)
    (taken : (out : List Output) → std.takes out ≡ true) where
  no_error_of_write : (out : List Output) → error_of_write std out ≡ none
  unfolding error_of_write
  no_error_of_write out = rw (taken out) refl

  add_element-taken :
      (x : Output) (w : Writer)
      → add_element std x w ≡ (none, record w { output = w.output ++ (x ∷ []) })
  unfolding add_element
  add_element-taken x w = rw (no_error_of_write (w.output ++ (x ∷ []))) refl

  start_multistatus-taken : (w : Writer) → start_multistatus std w ≡ (none, started w)
  unfolding start_multistatus started
  start_multistatus-taken w = elim (Bool-cases w.begun) [
    | inl e ↦ rw e refl
    | inr e ↦
        rw (e, no_error_of_write (w.output ++ declared))
          (add_element-taken begin_multistatus
            (record { begun = true; output = w.output ++ declared }))
  ]

  write_response-taken :
      (r : Response) (w : Writer)
      → is_valid_response r ≡ true
      → write_response std r w ≡ (none, write_valid r w)
  unfolding write_response write_valid
  write_response-taken r w valid = rw valid (
      ap (then_element std (respond r)) (start_multistatus-taken w)
      ∙ add_element-taken (respond r) (started w))

  visit_resource-goes_on :
      (path : Bytes) (info : FileInfo) (w : Writer)
      → visit_resource env std prefix pf path info w ≡ (none, step std env prefix pf path info w)
  unfolding visit_resource response_for
  visit_resource-goes_on path info w = ap stop_at (
      write_response-taken (response_for std env prefix pf path info) w (
        response-Valid std (href_of std prefix path info) (found_by env pf info)
          (found_by_some env pf info)))

  visit_all-begun :
      (xs : List (Bytes × FileInfo)) (out : List Output)
      → visit_all (step std env prefix pf) xs (record { begun = true; output = out })
        ≡ record { begun = true; output = out ++ responses_for std env prefix pf xs }
  unfolding visit_all responses_for write_valid started
  visit_all-begun [] out = ap (λ o. record { begun = true; output = o }) (sym (append-nil out))
  visit_all-begun ((path, info) ∷ xs) out =
      visit_all-begun xs (out ++ (respond (response_for std env prefix pf path info) ∷ []))
      ∙ ap (λ o. record { begun = true; output = o })
          (append_assoc out (respond (response_for std env prefix pf path info) ∷ [])
            (responses_for std env prefix pf xs))

  visit_all-new :
      (path : Bytes) (info : FileInfo) (xs : List (Bytes × FileInfo))
      → close std (visit_all (step std env prefix pf) ((path, info) ∷ xs) new_writer)
        ≡ (none, whole (responses_for std env prefix pf ((path, info) ∷ xs)))
  unfolding close visit_all write_valid started responses_for
  visit_all-new path info xs =
      let out =
        declared ++ (begin_multistatus ∷ respond (response_for std env prefix pf path info) ∷ []) in
      rw (visit_all-begun xs out) (
        add_element-taken end_multistatus
          (record { begun = true; output = out ++ responses_for std env prefix pf xs }))

abbrev tail_of : {A : Type 0} → List A → List A
tail_of [] = []
tail_of (x ∷ xs) = xs

close-listing :
    (std : Std) (env : Env) (prefix : Bytes) (pf : Propfind) (depth : ℤ) (path : Bytes)
    (info : FileInfo) (files : List FileInfo) (dirs : Forest)
    → ((out : List Output) → std.takes out ≡ true)
    → let xs = listing std depth path (tree info files dirs) in
      close std (visit_all (step std env prefix pf) xs new_writer)
      ≡ (none, whole (responses_for std env prefix pf xs))
unfolding listing
close-listing std env prefix pf depth path info files dirs taken =
    visit_all-new std env prefix pf taken path info
      (tail_of (listing std depth path (tree info files dirs)))

module _ {S : Type 0} (fs : FileSystem S) (std : Std) (env : Env) (prefix : Bytes) where
  -- What PROPFIND names and what is below it, as far as the header Depth asks.
  unfoldable pub listed : Request → Bytes → FileInfo → S → List (Bytes × FileInfo)
  listed r path info s =
      let c = fs.children info s in listing std (depth_of r.depth) path (tree info c.0 c.1)

  pub list_at-Listed :
      (r : Request) (path : Bytes) (info : FileInfo) (pf : Propfind) (s : S)
      → ((out : List Output) → std.takes out ≡ true)
      → is_invalid (depth_of r.depth) ≡ false
      → read_propfind (std.decode_propfind r.body) ≡ inl pf
      → list_at fs std env prefix r path info s ≡ record {
        reply = answer 0;
        output =
            set_header (codes "Content-Type") (codes "text/xml; charset=utf-8")
            ∷ write_header 207
            ∷ xml_declaration
            ∷ begin_multistatus
            ∷ (responses_for std env prefix pf (listed r path info s) ++ (end_multistatus ∷ []));
        store = s;
      }
  unfolding list_at listed
  list_at-Listed r path info pf s taken valid read =
      let c = fs.children info s in
      let walked =
        walk_fs-visits std (visit_resource env std prefix pf) (step std env prefix pf)
          (visit_resource-goes_on std env prefix pf taken) (depth_of r.depth) path
          (tree info c.0 c.1) new_writer in
      rw (valid, read, walked)
        (rw (close-listing std env prefix pf (depth_of r.depth) path info c.0 c.1 taken) refl)

  -- PROPFIND on a resource that there is, with a depth and a body that it takes, answers a client that takes what is written with an
  -- element for each resource of the listing, in its order, and changes nothing but what Recycle does.
  pub handle_propfind-Listed :
      (ls : MemLs) (r : Request) (path : Bytes) (info : FileInfo) (pf : Propfind) (s : S)
      → ((out : List Output) → std.takes out ≡ true)
      → strip_prefix prefix r.path ≡ inl path
      → is_path_exist fs path s ≡ some info
      → is_invalid (depth_of r.depth) ≡ false
      → read_propfind (std.decode_propfind r.body) ≡ inl pf
      → handle_propfind fs std env prefix ls r s ≡ record {
        reply = answer 0;
        output =
            set_header (codes "Content-Type") (codes "text/xml; charset=utf-8")
            ∷ write_header 207
            ∷ xml_declaration
            ∷ begin_multistatus
            ∷ (responses_for std env prefix pf (listed r path info s) ++ (end_multistatus ∷ []));
        store = fs.recycle s;
      }
  unfolding handle_propfind
  handle_propfind-Listed ls r path info pf s taken at there valid read =
      rw (at, there, list_at-Listed r path info pf s taken valid read) refl
