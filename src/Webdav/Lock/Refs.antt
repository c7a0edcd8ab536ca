-- ===== src/Webdav/Lock/Refs.antt =====
-- The walks of all locks together, counted.
use cloudreve.Prelude.{ℕ, ◌+◌, ◌<◌, ◌≡◌, refl, List, [], ◌∷◌, inl, inr, Bytes, eqb_refl, arith}
use cloudreve.Webdav.Path.Walk.{IsRooted, chain, chain_cons}
use cloudreve.Webdav.Lock.State.{Node, erase}
use cloudreve.Webdav.Lock.Counts.{occurrences}
use cloudreve.Webdav.Lock.Members.{In}
use cloudreve.Webdav.Lock.Consistent.{refs}

pub refs-erase :
    (nodes : ℕ → Node) (n : ℕ) (locks : List ℕ) (x : Bytes)
    → In n locks
    → refs nodes locks x
      ≡ occurrences x (chain (nodes n).details.root) + refs nodes (erase n locks) x
unfolding refs
refs-erase nodes n [] x i = absurd i
refs-erase nodes n (k ∷ locks) x i = ground (arith, refs-erase nodes n locks x)

-- A lock counts its own name.
pub refs-pos :
    (nodes : ℕ → Node) (n : ℕ) (locks : List ℕ)
    → In n locks
    → IsRooted (nodes n).details.root
    → 0 < refs nodes locks (nodes n).details.root
unfolding occurrences
refs-pos nodes n locks i r =
    let root = (nodes n).details.root in
    let (rest, e) = chain_cons root r in
    let pos : 0 < occurrences root (chain root) = rw e (ground (arith, eqb_refl root)) in
    omega (arith, refs-erase nodes n locks root i)

pub refs-cong :
    (f g : ℕ → Node) (locks : List ℕ) (x : Bytes)
    → ((n : ℕ) → In n locks → (f n).details.root ≡ (g n).details.root)
    → refs f locks x ≡ refs g locks x
unfolding refs
refs-cong f g [] x h = refl
refs-cong f g (k ∷ locks) x h =
    let e : refs f locks x ≡ refs g locks x = refs-cong f g locks x (λ n i. h n (inr i)) in
    rw (h k (inl refl), e) refl
