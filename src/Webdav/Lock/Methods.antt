-- ===== src/Webdav/Lock/Methods.antt =====
-- pkg/webdav/lock.go: the methods of memLS. A method takes the lock of the mutex for its whole body,
-- so a run of the system is a sequence of calls.
use cloudreve.Prelude.{
  ℕ, zero, suc, Bool, true, false, not, ◌&&◌, ◌||◌, Option, none, some, List, [], ◌∷◌, ◌++◌, ℤ,
  nonneg, Bytes, eqb, has_prefix, ltb, ◌==◌, if◌then◌else◌, length, ◌>>=◌,
}
use cloudreve.Webdav.Path.{slash, slash_clean}
use cloudreve.Webdav.Lock.Create.{can_create, create}
use cloudreve.Webdav.Lock.State.{
  confirmation_failed, locked, no_such_lock, Outcome, ok, failed, Condition, LockDetails, MemLs,
  assign, set_node, add, next_token, push, pull, earliest, remove,
}

-- The loop of collectExpiredNodes, with a round for each node of the queue.
unfoldable pub collect_loop : ℕ → ℕ → MemLs → Option MemLs
collect_loop zero now m = some m
collect_loop (suc fuel) now m = elim (earliest m.nodes m.by_expiry) [
  | none ↦ some m
  | some n ↦ elim (ltb now (m.nodes n).expiry) [
    | true ↦ some m
    | false ↦ remove n m >>= collect_loop fuel now
  ]
]

unfoldable pub collect_expired_nodes : ℕ → MemLs → Option MemLs
unfolding collect_loop
collect_expired_nodes now m = collect_loop (length m.by_expiry) now m

-- Whether the lock of a node covers a name, as `lookup` tests it.
unfoldable pub covers : LockDetails → Bytes → Bool
covers details name =
    eqb name details.root
    || not details.zero_depth && (eqb details.root slash || has_prefix name (details.root ++ slash))

unfoldable pub lookup : MemLs → Bytes → List Condition → Option ℕ
unfolding covers
lookup m name [] = none
lookup m name (c ∷ conditions) =
    let rest = lookup m name conditions in
    elim (m.by_token c.token) [
      | none ↦ rest
      | some n ↦
          if (m.nodes n).held
          then rest
          else if covers (m.nodes n).details name
          then some n
          else rest
    ]

unfoldable pub hold : ℕ → MemLs → Option MemLs
hold n m =
    let node = m.nodes n in
    if node.held
    then none
    else let m' = set_node m n (record node { held = true }) in
      some (if nonneg node.details.duration && node.queued then pull n m' else m')

unfoldable pub unhold : ℕ → MemLs → Option MemLs
unhold n m =
    let node = m.nodes n in
    if not node.held
    then none
    else let m' = set_node m n (record node { held = false }) in
      some (if nonneg node.details.duration then push n m' else m')

-- What a release function needs: the nodes that Confirm holds.
abbrev pub Held : Type 0
Held = Option ℕ × Option ℕ

abbrev pub each : (ℕ → MemLs → Option MemLs) → Option ℕ → MemLs → Option MemLs
each f none m = some m
each f (some n) m = f n m

abbrev pub same_node : Option ℕ → Option ℕ → Bool
same_node none none = true
same_node (some a) (some b) = a == b
same_node _ _ = false

-- The lookup of one name: an empty name asks for no lock, and `failed` is the nil of `lookup`.
unfoldable pub claim : MemLs → Bytes → List Condition → Outcome (Option ℕ)
claim m name conditions =
    if eqb name [] then ok none else elim (lookup m (slash_clean name) conditions) [
      | none ↦ failed confirmation_failed
      | some n ↦ ok (some n)
    ]

unfoldable pub claim_both : MemLs → Bytes → Bytes → List Condition → Outcome Held
unfolding claim
claim_both m name0 name1 conditions = elim (claim m name0 conditions) [
  | failed e ↦ failed e
  | ok n0 ↦ elim (claim m name1 conditions) [
    | failed e ↦ failed e
    | ok n1 ↦ ok (n0, (if same_node n1 n0 then none else n1))
  ]
]

unfoldable pub confirm : ℕ → Bytes → Bytes → List Condition → MemLs → Option (Outcome Held × MemLs)
unfolding claim_both hold
confirm now name0 name1 conditions m = do
  m₁ ← collect_expired_nodes now m
  elim (claim_both m₁ name0 name1 conditions) [
    | failed e ↦ some (failed e, m₁)
    | ok (n0, n1) ↦ do m₂ ← each hold n0 m₁; m₃ ← each hold n1 m₂; some (ok (n0, n1), m₃)
  ]

unfoldable pub release : Held → MemLs → Option MemLs
unfolding unhold
release (n0, n1) m = do m' ← each unhold n1 m; each unhold n0 m'

-- The end of Create: the new lock is written into its node.
unfoldable pub grant : ℕ → LockDetails → ℕ → Bytes → MemLs → MemLs
grant now details n token m =
    let node = record (m.nodes n) { details = details; token = token } in
    let m' = record (set_node m n node) { by_token = assign m.by_token token (some n) } in
    if nonneg details.duration
    then push n (set_node m' n (record node { expiry = add now details.duration }))
    else m'

unfoldable pub create_lock : ℕ → LockDetails → MemLs → Option (Outcome Bytes × MemLs)
create_lock now given m = do
  m₁ ← collect_expired_nodes now m
  let details = record given { root = slash_clean given.root }
  free ← can_create m₁ details.root details.zero_depth
  if free
      then (do
        (n, m₂) ← create details.root m₁
        let (token, m₃) = next_token m₂
        some (ok token, grant now details n token m₃))
      else some (failed locked, m₁)

-- The end of Refresh: the node leaves the queue, and comes back with its new deadline if it has one.
unfoldable pub renew : ℕ → ℕ → ℤ → MemLs → MemLs
renew now n duration m =
    let m₁ = if (m.nodes n).queued then pull n m else m in
    let node = m₁.nodes n in
    let details = record node.details { duration = duration } in
    if nonneg duration
    then push n (set_node m₁ n (record node { details = details; expiry = add now duration }))
    else set_node m₁ n (record node { details = details })

unfoldable pub refresh : ℕ → Bytes → ℤ → MemLs → Option (Outcome LockDetails × MemLs)
unfolding renew
refresh now token duration m = do
  m₁ ← collect_expired_nodes now m
  elim (m₁.by_token token) [
    | none ↦ some (failed no_such_lock, m₁)
    | some n ↦
        if (m₁.nodes n).held
        then some (failed locked, m₁)
        else let m₂ = renew now n duration m₁ in some (ok (m₂.nodes n).details, m₂)
  ]

unfoldable pub unlock : ℕ → Bytes → MemLs → Option (Outcome (Unit {0}) × MemLs)
unlock now token m = do
  m₁ ← collect_expired_nodes now m
  elim (m₁.by_token token) [
    | none ↦ some (failed no_such_lock, m₁)
    | some n ↦
        if (m₁.nodes n).held
        then some (failed locked, m₁)
        else do m₂ ← remove n m₁; some (ok tt, m₂)
  ]
