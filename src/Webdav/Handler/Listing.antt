-- ===== src/Webdav/Handler/Listing.antt =====
-- pkg/webdav/webdav.go: PROPFIND and PROPPATCH.
use cloudreve.Prelude.{
  not, ◌&&◌, Option, none, some, List, [], ◌∷◌, ◌++◌, Bytes, codes, eqb, if◌then◌else◌, inl, inr,
}
use cloudreve.Webdav.Lock.State.{MemLs}
use cloudreve.Webdav.Props.{
  FileInfo, Name, Property, Propstat, Env, props, propnames, allprop, patch, empty_propstat,
}
use cloudreve.Webdav.Handler.Request.{
  Error, err_invalid_depth, err_other, Reply, answer, fail, Request, FileSystem, Std, Result,
  replied, strip_prefix, is_path_exist, parse_depth, Propfind, tree,
}
use cloudreve.Webdav.Handler.Bodies.{read_propfind, read_proppatch}
use cloudreve.Webdav.Handler.Files.{WalkError, stop, skip_dir, walk_fs}
use cloudreve.Webdav.Handler.Replies.{
  Writer, new_writer, make_propstat_response, write_response, close,
}
use cloudreve.Webdav.Handler.Resources.{confirm_locks, then_recycle}
use cloudreve.Webdav.Handler.Transfers.{depth_of, is_invalid}

abbrev names_only : List Name → List Property
names_only [] = []
names_only (n ∷ names) = record { xml_name = n; inner_xml = [] } ∷ names_only names

abbrev pub names_or_nil : Option (List Name) → List Name
names_or_nil none = []
names_or_nil (some names) = names

-- What a resource answers to a PROPFIND.
unfoldable pub found_by : Env → Propfind → FileInfo → List Propstat
unfolding propnames allprop props
found_by env pf info =
    if pf.propname
    then record (empty_propstat 200) { props = names_only (propnames info) } ∷ []
    else (if pf.allprop
        then allprop env info (names_or_nil pf.prop)
        else props env info (names_or_nil pf.prop))

-- The name of a resource in an answer, with a slash after a folder.
unfoldable pub href_of : Std → Bytes → Bytes → FileInfo → Bytes
href_of std prefix path info =
    let href = std.path_join prefix path in
    if not (eqb href (codes "/")) && info.is_dir then href ++ codes "/" else href

abbrev pub stop_at : Option Error × Writer → Option WalkError × Writer
stop_at (none, w) = (none, w)
stop_at (some e, w) = (some (stop e), w)

unfoldable pub visit_resource :
    Env → Std → Bytes → Propfind → Bytes → FileInfo → Writer → Option WalkError × Writer
unfolding found_by href_of make_propstat_response write_response
visit_resource env std prefix pf path info w = stop_at (
    write_response std
      (make_propstat_response std (href_of std prefix path info) (found_by env pf info)) w)

-- The answer after a body in XML, by the error of its elements and that of its end.
abbrev pub multistatus_reply : Option WalkError → Option Error → Reply
multistatus_reply none none = answer 0
multistatus_reply none (some e) = fail 500 e
multistatus_reply (some (stop e)) closed = fail 500 e
multistatus_reply (some skip_dir) closed = fail 500 err_other

module _ {S : Type 0} (fs : FileSystem S) (std : Std) (env : Env) (prefix : Bytes) where
  unfoldable pub list_at : Request → Bytes → FileInfo → S → Result S
  unfolding parse_depth read_propfind walk_fs visit_resource close
  list_at r path info s =
      if is_invalid (depth_of r.depth)
      then replied (fail 400 err_invalid_depth) s
      else (elim (read_propfind (std.decode_propfind r.body)) [
        | inr reply ↦ replied reply s
        | inl pf ↦
            let below = fs.children info s in
            let w =
              walk_fs std (visit_resource env std prefix pf) (depth_of r.depth) path
                (tree info below.0 below.1) new_writer in
            let c = close std w.1 in
            record { reply = multistatus_reply w.0 c.0; output = (c.1).output; store = s }
      ])

  unfoldable pub handle_propfind : MemLs → Request → S → Result S
  unfolding strip_prefix is_path_exist list_at
  handle_propfind ls r s = then_recycle fs (elim (strip_prefix prefix r.path) [
    | inr reply ↦ replied reply s
    | inl path ↦ elim (is_path_exist fs path s) [
      | none ↦ replied (answer 404) s
      | some info ↦ list_at r path info s
    ]
  ])

  unfoldable pub patch_at : Request → S → Result S
  unfolding read_proppatch patch make_propstat_response write_response close
  patch_at r s = elim (read_proppatch (std.decode_proppatch r.body)) [
    | inr reply ↦ replied reply s
    | inl patches ↦
        let w =
          stop_at
            (write_response std (make_propstat_response std r.path (patch patches)) new_writer) in
        let c = close std w.1 in
        record { reply = multistatus_reply w.0 c.0; output = (c.1).output; store = s }
  ]

  unfoldable pub handle_proppatch : MemLs → Request → S → Result S
  unfolding strip_prefix confirm_locks is_path_exist patch_at
  handle_proppatch ls r s = then_recycle fs (elim (strip_prefix prefix r.path) [
    | inr reply ↦ replied reply s
    | inl path ↦ elim (confirm_locks r path []) [
      | some reply ↦ replied reply s
      | none ↦ elim (is_path_exist fs path s) [
        | none ↦ replied (answer 404) s
        | some info ↦ patch_at r s
      ]
    ]
  ])
