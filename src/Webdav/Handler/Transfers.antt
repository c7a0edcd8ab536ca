-- ===== src/Webdav/Handler/Transfers.antt =====
-- pkg/webdav/webdav.go: COPY and MOVE, and LOCK and UNLOCK, which keep no lock.
use cloudreve.Prelude.{
  Bool, false, not, Option, none, some, [], ◌∷◌, ℤ, pos, negsuc, Bytes, codes, eqb, if◌then◌else◌,
  ◌⊎◌, inl, inr, ◌==◌,
}
use cloudreve.Webdav.Lock.State.{MemLs}
use cloudreve.Webdav.Props.{FileInfo, Env}
use cloudreve.Webdav.Timeout.{parse_timeout}
use cloudreve.Webdav.Handler.Request.{
  err_invalid_depth, err_invalid_destination, err_destination_equals_source, err_invalid_timeout,
  Reply, answer, fail, Request, write_text, FileSystem, Std, Result, replied, strip_prefix,
  is_path_exist, parse_depth, infinite_depth,
}
use cloudreve.Webdav.Handler.Replies.{write_lock_info}
use cloudreve.Webdav.Handler.Files.{move_files, copy_files}
use cloudreve.Webdav.Handler.Resources.{confirm_locks, then_recycle, written}

-- The depth that a header asks for, where there is one.
abbrev pub depth_of : Bytes → ℤ
depth_of [] = infinite_depth
depth_of (c ∷ s) = parse_depth (c ∷ s)

abbrev pub is_infinite : ℤ → Bool
is_infinite (pos n) = false
is_infinite (negsuc n) = n == 0

abbrev pub is_zero_or_infinite : ℤ → Bool
is_zero_or_infinite (pos n) = n == 0
is_zero_or_infinite (negsuc n) = n == 0

abbrev pub is_invalid : ℤ → Bool
is_invalid (pos n) = false
is_invalid (negsuc n) = n == 1

-- A destination that is there and is not the source.
abbrev pub check_paths : Bytes → Bytes → (Bytes × Bytes) ⊎ Reply
check_paths src dst =
    if eqb dst []
    then inr (fail 502 err_invalid_destination)
    else (if eqb dst src then inr (fail 403 err_destination_equals_source) else inl (src, dst))

abbrev pub both_paths : Bytes ⊎ Reply → Bytes ⊎ Reply → (Bytes × Bytes) ⊎ Reply
both_paths (inr reply) dst = inr reply
both_paths (inl src) (inr reply) = inr reply
both_paths (inl src) (inl dst) = check_paths src dst

-- The source and the destination of a request, or the answer that refuses them.
unfoldable pub copy_move_paths : (Bytes → Option Bytes) → Bytes → Request → (Bytes × Bytes) ⊎ Reply
unfolding strip_prefix
copy_move_paths parse_url prefix r =
    if eqb r.destination []
    then inr (fail 400 err_invalid_destination)
    else (elim (parse_url r.destination) [
      | none ↦ inr (fail 400 err_invalid_destination)
      | some url_path ↦ both_paths (strip_prefix prefix r.path) (strip_prefix prefix url_path)
    ])

module _ {S : Type 0} (fs : FileSystem S) (std : Std) where
  unfoldable pub copy_or_move : Request → FileInfo → Bytes → Bytes → S → Result S
  unfolding confirm_locks move_files copy_files parse_depth
  copy_or_move r target src dst s =
      if eqb r.method (codes "COPY")
      then (elim (confirm_locks r [] dst) [
        | some reply ↦ replied reply s
        | none ↦
            if is_zero_or_infinite (depth_of r.depth)
            then copy_files fs std target dst (not (eqb r.overwrite (codes "F"))) (depth_of r.depth)
                0 s
            else replied (fail 400 err_invalid_depth) s
      ])
      else (elim (confirm_locks r src []) [
        | some reply ↦ replied reply s
        | none ↦
            if is_infinite (depth_of r.depth)
            then move_files fs std target dst (eqb r.overwrite (codes "T")) s
            else replied (fail 400 err_invalid_depth) s
      ])

  unfoldable pub handle_copy_move : Bytes → Request → S → Result S
  unfolding copy_move_paths is_path_exist copy_or_move
  handle_copy_move prefix r s = then_recycle fs (elim (copy_move_paths std.parse_url prefix r) [
    | inr reply ↦ replied reply s
    | inl (src, dst) ↦ elim (is_path_exist fs src s) [
      | none ↦ replied (answer 404) s
      | some target ↦ copy_or_move r target src dst s
    ]
  ])

  unfoldable pub handle_lock : MemLs → Env → Bytes → Bytes → Bytes → Request → S → Result S
  unfolding strip_prefix parse_timeout write_lock_info
  handle_lock ls env now email prefix r s =
      then_recycle fs (elim (parse_timeout std.trim_space r.timeout) [
        | none ↦ replied (fail 400 err_invalid_timeout) s
        | some duration ↦ elim (strip_prefix prefix r.path) [
          | inr reply ↦ replied reply s
          | inl path ↦ written (write_text (write_lock_info env now duration email path) ∷ []) s
        ]
      ])

  unfoldable pub handle_unlock : MemLs → Request → S → Result S
  handle_unlock ls r s = then_recycle fs (replied (answer 204) s)
