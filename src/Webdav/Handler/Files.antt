-- ===== src/Webdav/Handler/Files.antt =====
-- pkg/webdav/file.go: moveFiles, copyFiles and walkFS.
use cloudreve.Prelude.{
  ℕ, zero, suc, Bool, true, false, not, ◌||◌, Option, none, some, List, [], ◌∷◌, ℤ, pos, negsuc,
  Bytes, eqb, if◌then◌else◌, ◌==◌,
}
use cloudreve.Webdav.Props.{FileInfo}
use cloudreve.Webdav.Handler.Request.{
  Error, err_recursion_too_deep, Reply, answer, fail, Tree, tree, Forest, empty, plant, FileSystem,
  Std, Result, replied,
}

-- The identifiers of the folders and of the files to move, of which one is a list of one.
abbrev pub folder_ids : FileInfo → List ℕ
folder_ids src = if src.is_dir then src.id ∷ [] else []

abbrev pub file_ids : FileInfo → List ℕ
file_ids src = if src.is_dir then [] else src.id ∷ []

-- The answer after an operation that may give an error.
unfoldable pub done_or : ℕ → ℕ → Option Error → Reply
done_or done failed none = answer done
done_or done failed (some e) = fail failed e

module _ {S : Type 0} (fs : FileSystem S) (std : Std) where
  unfoldable pub move_step : FileInfo → Bytes → S → Option Error × S
  move_step src dst s =
      if not (eqb src.position (std.path_dir dst))
      then fs.move (folder_ids src) (file_ids src) src.position (std.path_dir dst) s
      else (none, s)

  unfoldable pub rename_step : FileInfo → Bytes → Option Error × S → Option Error × S
  rename_step src dst (some e, s) = (some e, s)
  rename_step src dst (none, s) =
      if not (eqb src.name (std.path_base dst))
      then fs.rename (folder_ids src) (file_ids src) (std.path_base dst) s
      else (none, s)

  unfoldable pub move_files : FileInfo → Bytes → Bool → S → Result S
  unfolding move_step rename_step done_or
  move_files src dst overwrite s =
      let r = rename_step src dst (move_step src dst s) in replied (done_or 204 500 r.0) r.1

  unfoldable pub copy_files : FileInfo → Bytes → Bool → ℤ → ℕ → S → Result S
  unfolding done_or
  copy_files src dst overwrite depth recursion s =
      if recursion == 1000
      then replied (fail 500 err_recursion_too_deep) s
      else (let r = fs.copy (folder_ids src) (file_ids src) src.position (std.path_dir dst) s in
          replied (done_or 204 500 r.0) r.1)

-- The error of a visit: filepath.SkipDir or another.
pub data WalkError : Type 0 where
  skip_dir : WalkError
  stop : Error → WalkError

abbrev pub is_zero_depth : ℤ → Bool
is_zero_depth (pos zero) = true
is_zero_depth (pos (suc n)) = false
is_zero_depth (negsuc n) = false

-- 1 becomes 0, and the other depths stay.
abbrev pub below : ℤ → ℤ
below (pos zero) = pos zero
below (pos (suc zero)) = pos zero
below (pos (suc (suc n))) = pos (suc (suc n))
below (negsuc n) = negsuc n

-- What is left of an error that the walk of an entry gives to the folder that holds it.
abbrev pub unless_skip : Bool → Option WalkError → Option WalkError
unless_skip is_dir none = none
unless_skip is_dir (some skip_dir) = if is_dir then none else some skip_dir
unless_skip is_dir (some (stop e)) = some (stop e)

-- What comes after the walk of an entry of a folder, unless it gives an error that is to be returned.
unfoldable pub after_entry :
    {W : Type 0} → Bool → Option WalkError × W → (W → Option WalkError × W) → Option WalkError × W
after_entry is_dir r next = elim (unless_skip is_dir r.0) [
  | none ↦ next r.1
  | some e ↦ (some e, r.1)
]

-- What comes after the visit of a resource.
unfoldable pub after_visit :
    {W : Type 0} → Bool → Option WalkError × W → (W → Option WalkError × W) → Option WalkError × W
after_visit is_dir r next = elim r.0 [
  | none ↦ next r.1
  | some e ↦ (unless_skip is_dir (some e), r.1)
]

module _ {W : Type 0} (std : Std) (visit : Bytes → FileInfo → W → Option WalkError × W) where
  -- The loop over files, below which there is nothing.
  unfoldable pub walk_files : Bytes → List FileInfo → W → Option WalkError × W
  unfolding after_entry
  walk_files path [] w = (none, w)
  walk_files path (f ∷ files) w =
      after_entry f.is_dir (visit (std.path_join path f.name) f w) (λ w'. walk_files path files w')

  unfoldable mutual
    unfolding walk_files after_visit after_entry

    pub walk_fs : ℤ → Bytes → Tree → W → Option WalkError × W
    walk_fs depth path (tree info files dirs) w = after_visit info.is_dir (visit path info w) (λ w'.
        if not info.is_dir || is_zero_depth depth
        then (none, w')
        else after_entry false (walk_files path files w')
            (λ v. walk_dirs (below depth) path dirs v))

    pub walk_dirs : ℤ → Bytes → Forest → W → Option WalkError × W
    walk_dirs depth path empty w = (none, w)
    walk_dirs depth path (plant (tree info files dirs) rest) w =
        after_entry info.is_dir
          (walk_fs depth (std.path_join path info.name) (tree info files dirs) w)
          (λ w'. walk_dirs depth path rest w')
