-- ===== src/Webdav/Handler/Replies.antt =====
-- pkg/webdav/xml.go and webdav.go: what is written in XML, as elements or, for a lock, as text.
use cloudreve.Prelude.{
  ℕ, suc, ◌/◌, Bool, true, false, not, ◌&&◌, ◌||◌, Option, none, some, List, [], ◌∷◌, ◌++◌, ℤ, pos,
  negsuc, Bytes, codes, if◌then◌else◌, format_uint, ◌==◌, map,
}
use cloudreve.Webdav.Props.{Propstat, Env}
use cloudreve.Webdav.Handler.Request.{
  Error, err_invalid_response, err_other, Output, set_header, write_header, xml_declaration,
  begin_multistatus, respond, end_multistatus, Response, PropstatElement, Std, status_text,
}

-- `d / time.Second`, which drops the fraction, in decimal.
unfoldable pub format_seconds : ℤ → Bytes
format_seconds (pos n) = format_uint (n / 1000000000)
format_seconds (negsuc n) =
    let seconds = suc n / 1000000000 in
    if seconds == 0 then codes "0" else b'-' ∷ format_uint seconds

abbrev pub is_special : ℕ → Bool
is_special c = c == b'"' || c == b'&' || c == 39 || c == b'<' || c == b'>'

unfoldable pub has_special : Bytes → Bool
has_special [] = false
has_special (c ∷ s) = let rest = has_special s in if is_special c then true else rest

unfoldable pub escape : Env → Bytes → Bytes
unfolding has_special
escape env s = if has_special s then env.escape_text s else s

-- The text for a lock of infinite depth.
unfoldable pub write_lock_info : Env → Bytes → ℤ → Bytes → Bytes → Bytes
unfolding format_seconds escape
write_lock_info env token duration owner root =
    codes "<?xml version=\"1.0\" encoding=\"utf-8\"?>\n"
    ++ (codes "<D:prop xmlns:D=\"DAV:\"><D:lockdiscovery><D:activelock>\n"
        ++ (codes "\t<D:locktype><D:write/></D:locktype>\n"
            ++ (codes "\t<D:lockscope><D:exclusive/></D:lockscope>\n"
                ++ (codes "\t<D:depth>infinity</D:depth>\n"
                    ++ (codes "\t<D:owner>"
                        ++ (owner
                            ++ (codes "</D:owner>\n\t<D:timeout>Second-"
                                ++ (format_seconds duration
                                    ++ (codes "</D:timeout>\n\t<D:locktoken><D:href>"
                                        ++ (escape env token
                                            ++ (codes
                                                  "</D:href></D:locktoken>\n\t<D:lockroot><D:href>"
                                                ++ (escape env root
                                                    ++ codes
                                                        "</D:href></D:lockroot>\n</D:activelock></D:lockdiscovery></D:prop>"))))))))))))

abbrev some_error : Bytes → Option Bytes
some_error [] = none
some_error (c ∷ s) = some (c ∷ s)

unfoldable pub propstat_element : Std → Propstat → PropstatElement
unfolding status_text
propstat_element std p = record {
  status =
      codes "HTTP/1.1 "
      ++ (format_uint p.status ++ (b' ' ∷ status_text std.http_status_text p.status));
  prop = p.props;
  error = some_error p.xml_error;
}

unfoldable pub make_propstat_response : Std → Bytes → List Propstat → Response
unfolding propstat_element
make_propstat_response std href pstats = record {
  href = std.escaped_path href ∷ [];
  propstat = map (propstat_element std) pstats;
  status = [];
}

-- The multistatusWriter, with what it has written; or has tried to write; it has begun when enc is set.
pub record Writer : Type 0 where
  pub begun : Bool
  pub output : List Output

abbrev pub new_writer : Writer
new_writer = record { begun = false; output = [] }

-- An error if the client does not take the last of these outputs.
unfoldable pub error_of_write : Std → List Output → Option Error
error_of_write std out = if std.takes out then none else some err_other

unfoldable pub add_element : Std → Output → Writer → Option Error × Writer
unfolding error_of_write
add_element std x w =
    (error_of_write std (w.output ++ (x ∷ [])), record w { output = w.output ++ (x ∷ []) })

-- The next element, unless what came before it gave an error.
abbrev pub then_element : Std → Output → Option Error × Writer → Option Error × Writer
then_element std x (none, w) = add_element std x w
then_element std x (some e, w) = (some e, w)

-- What is written before the first element, of which the XML declaration comes before enc is set.
abbrev pub declared : List Output
declared =
    set_header (codes "Content-Type") (codes "text/xml; charset=utf-8")
    ∷ write_header 207
    ∷ xml_declaration
    ∷ []

unfoldable pub start_multistatus : Std → Writer → Option Error × Writer
unfolding add_element error_of_write
start_multistatus std w =
    if w.begun then (none, w) else (elim (error_of_write std (w.output ++ declared)) [
      | some e ↦ (some e, record w { output = w.output ++ declared })
      | none ↦
          add_element std begin_multistatus (record { begun = true; output = w.output ++ declared })
    ])

abbrev pub is_empty : {A : Type 0} → List A → Bool
is_empty [] = true
is_empty (x ∷ xs) = false

-- Whether the parts of a response go together: one name with properties or with a status, or more
-- names with a status.
unfoldable pub is_valid_response : Response → Bool
is_valid_response r = elim r.href [
  | [] ↦ false
  | h ∷ hs ↦ elim hs [
    | [] ↦ if is_empty r.propstat then not (is_empty r.status) else is_empty r.status
    | g ∷ gs ↦ is_empty r.propstat && not (is_empty r.status)
  ]
]

unfoldable pub write_response : Std → Response → Writer → Option Error × Writer
unfolding is_valid_response start_multistatus add_element
write_response std r w =
    if is_valid_response r
    then then_element std (respond r) (start_multistatus std w)
    else (some err_invalid_response, w)

unfoldable pub close : Std → Writer → Option Error × Writer
unfolding add_element
close std w = if w.begun then add_element std end_multistatus w else (none, w)
