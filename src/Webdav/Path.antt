-- ===== src/Webdav/Path.antt =====
-- Resource names of pkg/webdav: slashClean (file.go) and walkToRoot (lock.go).
pub mod Walk
use cloudreve.Prelude.{
  ℕ, zero, suc, ◌+◌, ◌≡◌, Bool, true, false, Option, none, some, List, [], ◌∷◌, ◌++◌, Bytes, eqb,
  ◌==◌, if◌then◌else◌, ◌>>=◌,
}
use mathlib.Core.List.{foldl, reverse}

abbrev pub slash : Bytes
slash = b'/' ∷ []

-- `strings.Split(name, "/")`: the first segment, and the others.
split_slash : Bytes → Bytes × List Bytes
split_slash [] = ([], [])
split_slash (c ∷ cs) =
    let (seg, rest) = split_slash cs in if c == b'/' then ([], seg ∷ rest) else (c ∷ seg, rest)

abbrev drop_last : List Bytes → List Bytes
drop_last [] = []
drop_last (s ∷ stack) = stack

-- One segment of a rooted path, pushed on the segments that are kept, the last one first.
clean_segment : List Bytes → Bytes → List Bytes
clean_segment stack seg =
    if eqb seg []
    then stack
    else if eqb seg (b'.' ∷ [])
    then stack
    else if eqb seg (b'.' ∷ b'.' ∷ [])
    then drop_last stack
    else seg ∷ stack

join_slash : List Bytes → Bytes
join_slash [] = []
join_slash (seg ∷ rest) = b'/' ∷ (seg ++ join_slash rest)

abbrev root_if_empty : Bytes → Bytes
root_if_empty [] = slash
root_if_empty (c ∷ cs) = c ∷ cs

-- `path.Clean` of a path that begins with a slash.
unfoldable pub clean_rooted : Bytes → Bytes
unfolding split_slash clean_segment join_slash
clean_rooted name =
    let (seg, rest) = split_slash name in
    root_if_empty (join_slash (reverse (foldl clean_segment [] (seg ∷ rest))))

abbrev begins_with_slash : Bytes → Bool
begins_with_slash [] = false
begins_with_slash (c ∷ cs) = c == b'/'

unfoldable pub slash_clean : Bytes → Bytes
unfolding clean_rooted
slash_clean name = clean_rooted (if begins_with_slash name then name else b'/' ∷ name)

-- `name[:strings.LastIndex(name, "/")]`; `none` is the panic on the index -1.
unfoldable pub before_last_slash : Bytes → Option Bytes
before_last_slash [] = none
before_last_slash (c ∷ cs) = elim (before_last_slash cs) [
  | some p ↦ some (c ∷ p)
  | none ↦ if c == b'/' then some [] else none
]

-- walkToRoot, with the callback over the state that its closure changes. A callback that panics
-- is `none`, and so is a walk that runs out of fuel.
unfoldable pub walk_to_root {ℓ} :
    {S : Type ℓ} → (Bytes → Bool → S → Option (Bool × S)) → ℕ → Bytes → Bool → S → Option (Bool × S)
walk_to_root f zero name first s = none
walk_to_root f (suc fuel) name first s = do
  (go, s') ← f name first s
  let up = before_last_slash name >>= λ p. walk_to_root f fuel (root_if_empty p) false s'
  if go then (if eqb name slash then some (true, s') else up) else some (false, s')
