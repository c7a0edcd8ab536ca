-- ===== src/Webdav/Lock/Consistent.antt =====
-- The invariant of memLS, over the list of the nodes that hold a lock.
use cloudreve.Prelude.{
  ℕ, ◌+◌, ◌^◌, ◌<◌, ◌≤◌, ◌≡◌, ◌≢◌, Bool, true, false, not, ◌&&◌, ◌||◌, some, List, [], ◌∷◌, ◌⊎◌,
  Bytes, eqb, ltb, format_uint, nonneg,
}
use cloudreve.Webdav.Path.Walk.{IsRooted, chain}
use cloudreve.Webdav.Lock.State.{LockDetails, Node, MemLs}
use cloudreve.Webdav.Lock.Counts.{occurrences, IsCounted}
use cloudreve.Webdav.Lock.Members.{In, Distinct}

-- Whether the first name is the second or one above it.
abbrev pub above : Bytes → Bytes → Bool
above x name = ltb 0 (occurrences x (chain name))

-- Two locks overlap if they lock one name, or if one of them has infinite depth and lies above the
-- other's name.
unfoldable pub overlaps : LockDetails → LockDetails → Bool
overlaps a b =
    eqb a.root b.root
    || not a.zero_depth && above a.root b.root
    || not b.zero_depth && above b.root a.root

-- The walks of all locks together.
unfoldable pub refs : (ℕ → Node) → List ℕ → Bytes → ℕ
refs nodes [] x = 0
refs nodes (n ∷ ns) x = occurrences x (chain (nodes n).details.root) + refs nodes ns x

-- A node that holds a lock is found by its name and by its token, and waits in the expiry queue
-- exactly while it can expire and no Confirm holds it.
pub record IsLock (m : MemLs) (n : ℕ) : Type 0 where
  pub has_token : (m.nodes n).token ≢ []
  pub by_name : m.by_name (m.nodes n).details.root ≡ some n
  pub by_token : m.by_token (m.nodes n).token ≡ some n
  pub rooted : IsRooted (m.nodes n).details.root
  pub waits : (m.nodes n).queued ≡ (nonneg (m.nodes n).details.duration && not (m.nodes n).held)

pub record IsConsistent (m : MemLs) (locks : List ℕ) : Type 0 where
  pub counted : IsCounted m (refs m.nodes locks)
  pub distinct : Distinct locks
  pub lock : (n : ℕ) → In n locks → IsLock m n
  pub token : (t : Bytes) (n : ℕ) → m.by_token t ≡ some n → In n locks × ((m.nodes n).token ≡ t)
  pub unlocked : (x : Bytes) (n : ℕ) → m.by_name x ≡ some n → ((m.nodes n).token ≡ []) ⊎ In n locks
  pub idle :
      (x : Bytes) (n : ℕ)
      → m.by_name x ≡ some n
      → (m.nodes n).token ≡ []
      → ((m.nodes n).queued ≡ false) × ((m.nodes n).held ≡ false)
  pub queue : Distinct m.by_expiry
  pub in_queue : (n : ℕ) → In n m.by_expiry → In n locks × ((m.nodes n).queued ≡ true)
  pub queued : (n : ℕ) → In n locks → (m.nodes n).queued ≡ true → In n m.by_expiry
  pub exclusive :
      (a b : ℕ)
      → In a locks
      → In b locks
      → a ≢ b
      → overlaps (m.nodes a).details (m.nodes b).details ≡ false

-- Every token in use was issued, and the next one will be new.
pub record IsIssued (m : MemLs) (locks : List ℕ) : Type 0 where
  pub gen : m.gen < 2 ^ 64
  pub issued : (n : ℕ) → In n locks → (g : ℕ) × ((m.nodes n).token ≡ format_uint g) × (g ≤ m.gen)
