-- ===== src/Webdav/Handler/Copies.antt =====
-- What COPY does with its headers.
use cloudreve.Prelude.{
  ◌≡◌, refl, Bool, true, false, not, Option, none, some, Bytes, codes, eqb, ℤ, Bool-cases,
  Option-cases, inl, inr,
}
use cloudreve.Webdav.Props.{FileInfo}
use cloudreve.Webdav.Handler.Request.{
  Error, Result, answer, fail, replied, Request, FileSystem, Std,
}
use cloudreve.Webdav.Handler.Files.{
  folder_ids, file_ids, done_or, move_step, rename_step, move_files, copy_files,
}
use cloudreve.Webdav.Handler.Transfers.{depth_of, is_zero_or_infinite, copy_or_move}
use cloudreve.Webdav.Handler.Resources.{confirm_locks}

module _ {S : Type 0} (fs : FileSystem S) (std : Std) where
  copy_files_lem :
      (target : FileInfo) {dst dst' : Bytes} (o o' : Bool) (d d' : ℤ) (s : S)
      → std.path_dir dst ≡ std.path_dir dst'
      → copy_files fs std target dst o d 0 s ≡ copy_files fs std target dst' o' d' 0 s
  unfolding copy_files
  copy_files_lem target o o' d d' s same = rw (copy_files, same) refl

  -- Two requests to copy the same resource into the same folder do the same and have the same answer,
  -- whatever names they give to the copy, whatever they say of overwriting, and whatever depths, of
  -- those that are taken, they ask for.
  pub copy_or_move-same :
      (r r' : Request) (target : FileInfo) (src dst dst' : Bytes) (s : S)
      → eqb r.method (codes "COPY") ≡ true
      → eqb r'.method (codes "COPY") ≡ true
      → is_zero_or_infinite (depth_of r.depth) ≡ true
      → is_zero_or_infinite (depth_of r'.depth) ≡ true
      → std.path_dir dst ≡ std.path_dir dst'
      → copy_or_move fs std r target src dst s ≡ copy_or_move fs std r' target src dst' s
  unfolding copy_or_move confirm_locks
  copy_or_move-same r r' target src dst dst' s copy copy' valid valid' same =
      rw (copy_or_move, copy, copy', valid, valid')
        (copy_files_lem target (not (eqb r.overwrite (codes "F")))
          (not (eqb r'.overwrite (codes "F"))) (depth_of r.depth) (depth_of r'.depth) s same)

-- What MOVE does, by whether the folder and the name of the destination are those of the resource.
module _ {S : Type 0} (fs : FileSystem S) (std : Std) (target : FileInfo) (dst : Bytes)
    (s : S) where
  abbrev pub move_it : Option Error × S
  move_it = fs.move (folder_ids target) (file_ids target) target.position (std.path_dir dst) s

  abbrev pub rename_it : S → Option Error × S
  rename_it s' = fs.rename (folder_ids target) (file_ids target) (std.path_base dst) s'

  -- The results of the moves: none, of the name, of the folder, and of both in this order.
  pub data IsMove : Result S → Type 0 where
    stays :
        eqb target.position (std.path_dir dst) ≡ true
        → eqb target.name (std.path_base dst) ≡ true
        → IsMove (replied (answer 204) s)
    renames :
        eqb target.position (std.path_dir dst) ≡ true
        → eqb target.name (std.path_base dst) ≡ false
        → IsMove (replied (done_or 204 500 (rename_it s).0) (rename_it s).1)
    moves :
        eqb target.position (std.path_dir dst) ≡ false
        → eqb target.name (std.path_base dst) ≡ true
        → move_it.0 ≡ none
        → IsMove (replied (answer 204) move_it.1)
    gives_up :
        (e : Error)
        → eqb target.position (std.path_dir dst) ≡ false
        → move_it.0 ≡ some e
        → IsMove (replied (fail 500 e) move_it.1)
    moves_and_renames :
        eqb target.position (std.path_dir dst) ≡ false
        → eqb target.name (std.path_base dst) ≡ false
        → move_it.0 ≡ none
        → IsMove (replied (done_or 204 500 (rename_it move_it.1).0) (rename_it move_it.1).1)

  -- Where the destination is the place of the resource, MOVE does nothing; where it is in the same
  -- folder, MOVE renames; where it has the same name, MOVE moves; and else MOVE moves and then
  -- renames, unless the move gives an error. It answers 204, or 500 with the error of the last
  -- operation that it does.
  pub move_files-IsMove : (o : Bool) → IsMove (move_files fs std target dst o s)
  unfolding move_files move_step rename_step done_or
  move_files-IsMove o = elim (Bool-cases (eqb target.position (std.path_dir dst))) [
    | inl d ↦ elim (Bool-cases (eqb target.name (std.path_base dst))) [
      | inl n ↦ rw (move_files, move_step, d, rename_step, n) (stays d n)
      | inr n ↦ rw (move_files, move_step, d, rename_step, n) (renames d n)
    ]
    | inr d ↦ elim (Option-cases move_it.0) [
      | inr (e, f) ↦ rw (move_files, move_step, d, rename_step, f, done_or) (gives_up e d f)
      | inl f ↦ elim (Bool-cases (eqb target.name (std.path_base dst))) [
        | inl n ↦ rw (move_files, move_step, d, rename_step, f, n, done_or) (moves d n f)
        | inr n ↦ rw (move_files, move_step, d, rename_step, f, n) (moves_and_renames d n f)
      ]
    ]
  ]
