-- ===== src/Webdav/Handler/Walks.antt =====
-- What walkFS visits: the resource, and below a folder, as deep as is asked, its files and then its
-- folders.
use cloudreve.Prelude.{
  ◌≡◌, refl, sym, ap, ◌∙◌, Bool, false, not, ◌||◌, Option, none, List, [], ◌∷◌, ◌++◌, ℤ, Bytes,
  if◌then◌else◌, Bool-cases, inl, inr,
}
use cloudreve.Webdav.Props.{FileInfo}
use cloudreve.Webdav.Handler.Request.{Tree, tree, Forest, empty, plant, Std}
use cloudreve.Webdav.Handler.Files.{
  WalkError, after_entry, after_visit, is_zero_depth, below, walk_files, walk_fs, walk_dirs,
}

unfoldable pub files_below : Std → Bytes → List FileInfo → List (Bytes × FileInfo)
files_below std path [] = []
files_below std path (f ∷ files) = (std.path_join path f.name, f) ∷ files_below std path files

unfoldable mutual
  unfolding files_below

  -- The paths and the resources that a listing has, in its order.
  pub listing : Std → ℤ → Bytes → Tree → List (Bytes × FileInfo)
  listing std depth path (tree info files dirs) =
      let rest = files_below std path files ++ listings std (below depth) path dirs in
      (path, info) ∷ (if not info.is_dir || is_zero_depth depth then [] else rest)

  pub listings : Std → ℤ → Bytes → Forest → List (Bytes × FileInfo)
  listings std depth path empty = []
  listings std depth path (plant (tree info files dirs) rest) =
      listing std depth (std.path_join path info.name) (tree info files dirs)
      ++ listings std depth path rest

-- Visits one after the other, none of which gives an error.
unfoldable pub visit_all :
    {W : Type 0} → (Bytes → FileInfo → W → W) → List (Bytes × FileInfo) → W → W
visit_all step [] w = w
visit_all step ((path, info) ∷ rest) w = visit_all step rest (step path info w)

pub visit_all-++ :
    {W : Type 0} (step : Bytes → FileInfo → W → W) (xs ys : List (Bytes × FileInfo)) (w : W)
    → visit_all step (xs ++ ys) w ≡ visit_all step ys (visit_all step xs w)
unfolding visit_all
visit_all-++ step [] ys w = refl
visit_all-++ step ((path, info) ∷ xs) ys w = visit_all-++ step xs ys (step path info w)

after_entry-none :
    {W : Type 0} (is_dir : Bool) {r : Option WalkError × W} {w : W}
    (next : W → Option WalkError × W)
    → r ≡ (none, w)
    → after_entry is_dir r next ≡ next w
unfolding after_entry
after_entry-none is_dir next e = rw e refl

after_visit-none :
    {W : Type 0} (is_dir : Bool) {r : Option WalkError × W} {w : W}
    (next : W → Option WalkError × W)
    → r ≡ (none, w)
    → after_visit is_dir r next ≡ next w
unfolding after_visit
after_visit-none is_dir next e = rw e refl

module _ {W : Type 0} (std : Std) (visit : Bytes → FileInfo → W → Option WalkError × W)
    (step : Bytes → FileInfo → W → W)
    (goes_on : (path : Bytes) (info : FileInfo) (w : W)
      → visit path info w ≡ (none, step path info w)) where
  walk_files-visits :
      (path : Bytes) (files : List FileInfo) (w : W)
      → walk_files std visit path files w ≡ (none, visit_all step (files_below std path files) w)
  unfolding walk_files files_below visit_all
  walk_files-visits path [] w = refl
  walk_files-visits path (f ∷ files) w =
      after_entry-none f.is_dir (walk_files std visit path files)
        (goes_on (std.path_join path f.name) f w)
      ∙ walk_files-visits path files (step (std.path_join path f.name) f w)

  mutual
    unfolding walk_fs walk_dirs listing visit_all

    -- A walk whose visits give no error visits what a listing has, in its order.
    pub walk_fs-visits :
        (depth : ℤ) (path : Bytes) (t : Tree) (w : W)
        → walk_fs std visit depth path t w ≡ (none, visit_all step (listing std depth path t) w)
    walk_fs-visits depth path (tree info files dirs) w =
        let w1 = step path info w in
        let w2 = visit_all step (files_below std path files) w1 in
        after_visit-none info.is_dir
          (λ v.
            if not info.is_dir || is_zero_depth depth
            then (none, v)
            else after_entry false (walk_files std visit path files v)
                (walk_dirs std visit (below depth) path dirs))
          (goes_on path info w)
        ∙ (elim (Bool-cases (not info.is_dir || is_zero_depth depth)) [
          | inl e ↦ rw e refl
          | inr e ↦ rw e (
              after_entry-none false (walk_dirs std visit (below depth) path dirs)
                (walk_files-visits path files w1)
              ∙ walk_dirs-visits (below depth) path dirs w2
              ∙ ap (λ v. (none, v))
                  (sym (
                    visit_all-++ step (files_below std path files)
                      (listings std (below depth) path dirs) w1)))
        ])

    walk_dirs-visits :
        (depth : ℤ) (path : Bytes) (dirs : Forest) (w : W)
        → walk_dirs std visit depth path dirs w
          ≡ (none, visit_all step (listings std depth path dirs) w)
    walk_dirs-visits depth path empty w = refl
    walk_dirs-visits depth path (plant (tree info files dirs) rest) w =
        let here = listing std depth (std.path_join path info.name) (tree info files dirs) in
        after_entry-none info.is_dir (walk_dirs std visit depth path rest)
          (walk_fs-visits depth (std.path_join path info.name) (tree info files dirs) w)
        ∙ walk_dirs-visits depth path rest (visit_all step here w)
        ∙ ap (λ v. (none, v)) (sym (visit_all-++ step here (listings std depth path rest) w))
