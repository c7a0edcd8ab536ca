-- ===== src/Webdav/Lock/State.antt =====
-- pkg/webdav/lock.go: the in-memory lock system memLS. A node is a pointer into `nodes`, so that
-- the two maps and the expiry queue share it. An operation returns `none` where the code panics.
use cloudreve.Prelude.{
  ℕ, zero, ◌+◌, ◌%◌, ◌^◌, Bool, true, false, Option, none, some, List, [], ◌∷◌, ℤ, pos, negsuc,
  pred_ℤ, Bytes, eqb, format_uint, ltb, ◌==◌, if◌then◌else◌, length, ◌>>=◌,
}
use cloudreve.Webdav.Path.{walk_to_root}

pub data LockError : Type 0 where
  confirmation_failed forbidden locked no_such_lock : LockError

pub data Outcome {ℓ} (A : Type ℓ) : Type ℓ where
  ok : A → Outcome A
  failed : LockError → Outcome A

pub record Condition : Type 0 where
  pub negated : Bool
  pub token : Bytes
  pub etag : Bytes

pub record LockDetails : Type 0 where
  pub root : Bytes
  pub duration : ℤ
  pub owner_xml : Bytes
  pub zero_depth : Bool

-- `queued` is whether byExpiryIndex is at least 0.
pub record Node : Type 0 where
  pub details : LockDetails
  pub token : Bytes
  pub ref_count : ℤ
  pub expiry : ℕ
  pub queued : Bool
  pub held : Bool

pub record MemLs : Type 0 where
  pub nodes : ℕ → Node
  pub fresh : ℕ
  pub by_name : Bytes → Option ℕ
  pub by_token : Bytes → Option ℕ
  pub gen : ℕ
  pub by_expiry : List ℕ

-- NewMemLS, given the Unix time. A node that no pointer names is blank.
abbrev pub blank : Node
blank = record {
  details = record { root = []; duration = pos 0; owner_xml = []; zero_depth = false };
  token = [];
  ref_count = pos 0;
  expiry = 0;
  queued = false;
  held = false;
}

abbrev pub new_mem_ls : ℕ → MemLs
new_mem_ls unix = record {
  nodes = λ _. blank;
  fresh = 0;
  by_name = λ _. none;
  by_token = λ _. none;
  gen = unix;
  by_expiry = [];
}

abbrev pub update : (ℕ → Node) → ℕ → Node → ℕ → Node
update nodes n x = λ k. if k == n then x else nodes k

abbrev pub assign : (Bytes → Option ℕ) → Bytes → Option ℕ → Bytes → Option ℕ
assign table key x = λ k. if eqb k key then x else table k

abbrev pub set_node : MemLs → ℕ → Node → MemLs
set_node m n x = record m { nodes = update m.nodes n x }

-- time.Time.Add of a duration that is not negative
abbrev pub add : ℕ → ℤ → ℕ
add now (pos d) = now + d
add now (negsuc d) = now

unfoldable pub next_token : MemLs → Bytes × MemLs
next_token m = let g = (m.gen + 1) % 2 ^ 64 in (format_uint g, record m { gen = g })

-- The expiry queue: heap.Push, heap.Remove, and the node at index 0, which expires first.
abbrev pub erase : ℕ → List ℕ → List ℕ
erase n [] = []
erase n (x ∷ xs) = if x == n then xs else x ∷ erase n xs

unfoldable pub push : ℕ → MemLs → MemLs
push n m = record m {
  nodes = update m.nodes n (record (m.nodes n) { queued = true });
  by_expiry = n ∷ m.by_expiry;
}

unfoldable pub pull : ℕ → MemLs → MemLs
pull n m = record m {
  nodes = update m.nodes n (record (m.nodes n) { queued = false });
  by_expiry = erase n m.by_expiry;
}

unfoldable pub earliest : (ℕ → Node) → List ℕ → Option ℕ
earliest nodes [] = none
earliest nodes (n ∷ ns) = elim (earliest nodes ns) [
  | none ↦ some n
  | some k ↦ if ltb (nodes k).expiry (nodes n).expiry then some k else some n
]

-- The callback of `remove`; byName[name0] is nil only if the reference counts are wrong.
unfoldable pub drop_ref : Bytes → Bool → MemLs → Option (Bool × MemLs)
drop_ref name0 first m = do
  x ← m.by_name name0
  let r = pred_ℤ (m.nodes x).ref_count
  let m' = set_node m x (record (m.nodes x) { ref_count = r })
  let gone = record m' { by_name = assign m.by_name name0 none }
  some (true, elim r [ pos zero ↦ gone | _ ↦ m' ])

unfoldable pub remove : ℕ → MemLs → Option MemLs
unfolding drop_ref pull
remove n m = do
  let node = m.nodes n
  let root = node.details.root
  let cleared = record m {
    by_token = assign m.by_token node.token none;
    nodes = update m.nodes n (record node { token = [] });
  }
  (_, m') ← walk_to_root drop_ref (length root) root true cleared
  some (if (m'.nodes n).queued then pull n m' else m')
