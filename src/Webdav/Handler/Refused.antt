-- ===== src/Webdav/Handler/Refused.antt =====
-- The statuses of the answers that refuse a request.
use cloudreve.Prelude.{
  ℕ, ◌≡◌, refl, sym, ◌∙◌, arith, Bool, true, false, Option, none, some, List, [], ◌∷◌, Bytes,
  if◌then◌else◌, ◌⊎◌, inl, inr, ◌==◌, Bool-cases, Option-cases, eqb,
}
use cloudreve.Webdav.Props.{Proppatch}
use cloudreve.Webdav.Handler.Request.{
  Reply, Request, Propfind, Decoded, decoded, eof, broken, SetRemove, strip_prefix,
}
use cloudreve.Webdav.Handler.Bodies.{
  check_propfind, read_propfind, read_set_remove, read_set_removes, read_proppatch, cons_patch,
}
use cloudreve.Webdav.Handler.Transfers.{copy_move_paths, check_paths, both_paths}

unfoldable pub one_of : List ℕ → ℕ → Bool
one_of [] n = false
one_of (m ∷ ms) n = let rest = one_of ms n in if n == m then true else rest

-- The status of a reply, and whether it comes with an error for the log.
pub data Answer : Type 0 where
  without_error with_error : ℕ → Answer

abbrev pub answer_of : Reply → Answer
answer_of r = elim r.err [ none ↦ without_error r.status | some e ↦ with_error r.status ]

abbrev same_answer : Answer → Answer → Bool
same_answer (without_error m) (without_error n) = m == n
same_answer (with_error m) (with_error n) = m == n
same_answer (without_error m) (with_error n) = false
same_answer (with_error m) (without_error n) = false

unfoldable pub has_answer : List Answer → Answer → Bool
has_answer [] a = false
has_answer (b ∷ bs) a = let rest = has_answer bs a in if same_answer a b then true else rest

-- The answers to paths that COPY and MOVE do not take.
abbrev pub path_errors : List Answer
path_errors = with_error 400 ∷ with_error 403 ∷ with_error 404 ∷ with_error 502 ∷ []

pub strip_prefix_refused :
    (prefix p : Bytes) (reply : Reply)
    → strip_prefix prefix p ≡ inr reply
    → answer_of reply ≡ with_error 404
unfolding strip_prefix
strip_prefix_refused [] p reply e = ground arith
strip_prefix_refused (c ∷ prefix) p reply e = ground arith

pub status-strip_prefix_refused :
    (prefix p : Bytes) (reply : Reply) → strip_prefix prefix p ≡ inr reply → reply.status ≡ 404
unfolding strip_prefix
status-strip_prefix_refused [] p reply e = ground arith
status-strip_prefix_refused (c ∷ prefix) p reply e = ground arith

pub check_propfind_refused :
    (pf : Propfind) (reply : Reply)
    → check_propfind pf ≡ inr reply
    → answer_of reply ≡ with_error 400
unfolding check_propfind
check_propfind_refused pf reply e = ground arith

pub read_propfind_refused :
    (d : Decoded Propfind) (reply : Reply)
    → read_propfind d ≡ inr reply
    → answer_of reply ≡ with_error 400
unfolding read_propfind
read_propfind_refused (eof true) reply e = ground arith
read_propfind_refused (eof false) reply e = ground arith
read_propfind_refused broken reply e = ground arith
read_propfind_refused (decoded pf) reply e = check_propfind_refused pf reply e

cons_refused :
    (p : Option Proppatch) (rest : List Proppatch ⊎ Reply) (reply : Reply)
    → ((r : Reply) → rest ≡ inr r → answer_of r ≡ with_error 400)
    → cons_patch p rest ≡ inr reply
    → answer_of reply ≡ with_error 400
cons_refused none rest reply ih e = ground (arith, e)
cons_refused (some p) (inl ps) reply ih e = ground (arith, e)
cons_refused (some p) (inr r) reply ih e = let h = ih r refl in ground (arith, h, e)

read_set_removes_refused :
    (ops : List SetRemove) (reply : Reply)
    → read_set_removes ops ≡ inr reply
    → answer_of reply ≡ with_error 400
unfolding read_set_removes
read_set_removes_refused [] reply e = ground arith
read_set_removes_refused (op ∷ ops) reply e =
    cons_refused (read_set_remove op) (read_set_removes ops) reply (read_set_removes_refused ops) e

pub read_proppatch_refused :
    (d : Decoded (List SetRemove)) (reply : Reply)
    → read_proppatch d ≡ inr reply
    → answer_of reply ≡ with_error 400
unfolding read_proppatch
read_proppatch_refused (eof b) reply e = ground arith
read_proppatch_refused broken reply e = ground arith
read_proppatch_refused (decoded ops) reply e = read_set_removes_refused ops reply e

check_paths_refused :
    (src dst : Bytes) (reply : Reply)
    → check_paths src dst ≡ inr reply
    → has_answer path_errors (answer_of reply) ≡ true
unfolding has_answer
check_paths_refused src dst reply e = ground (arith, e)

both_paths_refused :
    (src dst : Bytes ⊎ Reply) (reply : Reply)
    → ((r : Reply) → src ≡ inr r → answer_of r ≡ with_error 404)
    → ((r : Reply) → dst ≡ inr r → answer_of r ≡ with_error 404)
    → both_paths src dst ≡ inr reply
    → has_answer path_errors (answer_of reply) ≡ true
unfolding has_answer
both_paths_refused (inr r) dst reply left right e = let h = left r refl in ground (arith, h, e)
both_paths_refused (inl src) (inr r) reply left right e =
    let h = right r refl in ground (arith, h, e)
both_paths_refused (inl src) (inl dst) reply left right e = check_paths_refused src dst reply e

paths_of :
    (parse_url : Bytes → Option Bytes) (prefix : Bytes) (r : Request) {p : Bytes}
    → eqb r.destination [] ≡ false
    → parse_url r.destination ≡ some p
    → copy_move_paths parse_url prefix r
      ≡ both_paths (strip_prefix prefix r.path) (strip_prefix prefix p)
unfolding copy_move_paths
paths_of parse_url prefix r header good = rw (header, good) refl

pub copy_move_paths_refused :
    (parse_url : Bytes → Option Bytes) (prefix : Bytes) (r : Request) (reply : Reply)
    → copy_move_paths parse_url prefix r ≡ inr reply
    → has_answer path_errors (answer_of reply) ≡ true
unfolding copy_move_paths has_answer
copy_move_paths_refused parse_url prefix r reply e = elim (Bool-cases (eqb r.destination [])) [
  | inl no_header ↦ ground (arith, e, no_header)
  | inr header ↦ elim (Option-cases (parse_url r.destination)) [
    | inl bad ↦ ground (arith, e, header, bad)
    | inr (p, good) ↦
        both_paths_refused (strip_prefix prefix r.path) (strip_prefix prefix p) reply
          (strip_prefix_refused prefix r.path) (strip_prefix_refused prefix p)
          (sym (paths_of parse_url prefix r header good) ∙ e)
  ]
]
