-- ===== src/Webdav/Lock/Create.antt =====
-- pkg/webdav/lock.go: the walks of canCreate and create.
use mathlib.Core.Option
use cloudreve.Prelude.{
  ℕ, ◌+◌, Bool, true, not, ◌&&◌, Option, none, some, [], Bytes, eqb, suc_ℤ, if◌then◌else◌, length,
  ◌>>=◌,
}
use cloudreve.Webdav.Path.{walk_to_root}
use cloudreve.Webdav.Lock.State.{MemLs, blank, assign, update, set_node}

-- The callback of canCreate; it changes nothing.
unfoldable pub may_lock : Bool → Bytes → Bool → MemLs → Option (Bool × MemLs)
may_lock zero_depth name0 first m = elim (m.by_name name0) [
  | none ↦ some (true, m)
  | some n ↦
      let has_token = not (eqb (m.nodes n).token []) in
      some (
        if first
            then not has_token && zero_depth
            else not (has_token && not (m.nodes n).details.zero_depth),
        m,
      )
]

unfoldable pub can_create : MemLs → Bytes → Bool → Option Bool
unfolding may_lock
can_create m name zero_depth =
    Option.map (λ r. r.0) (walk_to_root (may_lock zero_depth) (length name) name true m)

-- The node of a name, made if the map has none.
unfoldable pub node_for : Bytes → MemLs → ℕ × MemLs
node_for name0 m = elim (m.by_name name0) [
  | some n ↦ (n, m)
  | none ↦ (
    m.fresh,
    record m {
      fresh = m.fresh + 1;
      nodes =
          update m.nodes m.fresh (record blank { details = record blank.details { root = name0 } });
      by_name = assign m.by_name name0 (some m.fresh);
    },
  )
]

abbrev pub count_up : ℕ → MemLs → MemLs
count_up n m = set_node m n (record (m.nodes n) { ref_count = suc_ℤ (m.nodes n).ref_count })

-- The callback of `create`; the variable `ret` of its closure is beside the state.
unfoldable pub add_ref : Bytes → Bool → Option ℕ × MemLs → Option (Bool × (Option ℕ × MemLs))
unfolding node_for
add_ref name0 first (ret, m) =
    let (n, m') = node_for name0 m in some (true, ((if first then some n else ret), count_up n m'))

unfoldable pub create : Bytes → MemLs → Option (ℕ × MemLs)
unfolding add_ref
create name m = do
  (_, (ret, m')) ← walk_to_root add_ref (length name) name true (none, m)
  n ← ret
  some (n, m')
