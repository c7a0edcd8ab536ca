-- ===== src/Cluster.antt =====
-- pkg/cluster/pool.go: the pool of nodes, by their state, with an index of the nodes that have a
-- feature. A method that changes the pool frees the mutex before buildIndexMap takes it again; the
-- model takes the two parts as one, so that it is about calls one after another.
pub mod Ping
pub mod Valid
pub mod Members
pub mod Moves
pub mod Contract
pub mod Balance
mod Tests
use cloudreve.Prelude.{
  ℕ, ◌==◌, Bool, true, false, Option, none, some, List, [], ◌∷◌, ◌++◌, ◌>>=◌, Bytes, codes, eqb,
  Assoc, find, put, erase, nat_eq, bytes_eq, if◌then◌else◌,
}
use cloudreve.Balancer.{
  Peer, peer, err_input_not_slice, err_no_available_node, Nodes, slice, RoundRobin, next_peer,
}

pub data ModelType : Type 0 where
  slave_node_type : ModelType
  master_node_type : ModelType

-- The row of a node in the database.
pub record NodeModel : Type 0 where
  pub id : ℕ
  pub model_type : ModelType
  pub server : Bytes
  pub aria2_enabled : Bool

-- A node in memory, with the fields that the pool asks for.
pub record PoolNode : Type 0 where
  pub model : NodeModel
  pub active : Bool

-- A node after Init.
abbrev pub new_node : NodeModel → PoolNode
new_node m = record { model = m; active = true }

-- Whether Init of a new node goes well: that of a slave asks a nil URL for its text, and panics, where
-- the server of the row is not parsed. `parses` says whether url.Parse gives no error.
unfoldable pub can_init : (Bytes → Bool) → NodeModel → Bool
can_init parses m = elim m.model_type [
  | slave_node_type ↦ parses m.server
  | master_node_type ↦ true
]

-- `none` for a panic.
unfoldable pub new_node_from_db_model : (Bytes → Bool) → NodeModel → Option PoolNode
unfolding can_init
new_node_from_db_model parses m = if can_init parses m then some (new_node m) else none

unfoldable pub is_active : PoolNode → Bool
is_active n = elim n.model.model_type [ slave_node_type ↦ n.active | master_node_type ↦ true ]

unfoldable pub is_feature_enabled : Bytes → PoolNode → Bool
is_feature_enabled feature n = if eqb feature (codes "aria2") then n.model.aria2_enabled else false

abbrev pub feature_group : List Bytes
feature_group = codes "aria2" ∷ []

-- A map gives nil where it has no entry, and may hold nil.
pub record NodePool : Type 0 where
  pub active : Assoc ℕ (Option PoolNode)
  pub inactive : Assoc ℕ (Option PoolNode)
  pub feature_map : Assoc Bytes (List PoolNode)

-- Init
abbrev pub new_node_pool : NodePool
new_node_pool = record { active = []; inactive = []; feature_map = [] }

abbrev pub node_at : ℕ → Assoc ℕ (Option PoolNode) → Option PoolNode
node_at id m = elim (find id m) [ none ↦ none | some n ↦ n ]

-- What a call asks of a node: to end, to take a new row, to report its status.
pub data Effect : Type 0 where
  kill : PoolNode → Effect
  init : PoolNode → NodeModel → Effect
  subscribe : PoolNode → Effect

unfoldable pub clear_features :
    List Bytes → Assoc Bytes (List PoolNode) → Assoc Bytes (List PoolNode)
clear_features [] m = m
clear_features (f ∷ fs) m = clear_features fs (put f [] m)

-- `pool.featureMap[feature] = append(pool.featureMap[feature], v)`
abbrev pub append_feature :
    Bytes → PoolNode → Assoc Bytes (List PoolNode) → Assoc Bytes (List PoolNode)
append_feature f n m = put f ((elim (find f m) [ none ↦ [] | some ns ↦ ns ]) ++ (n ∷ [])) m

unfoldable pub index_node :
    List Bytes → PoolNode → Assoc Bytes (List PoolNode) → Assoc Bytes (List PoolNode)
unfolding is_feature_enabled
index_node [] n m = m
index_node (f ∷ fs) n m =
    index_node fs n (if is_feature_enabled f n then append_feature f n m else m)

-- `none` where a nil node is asked.
unfoldable pub index_nodes :
    Assoc ℕ (Option PoolNode) → Assoc Bytes (List PoolNode) → Option (Assoc Bytes (List PoolNode))
unfolding index_node
index_nodes [] m = some m
index_nodes ((id, none) ∷ nodes) m = none
index_nodes ((id, some n) ∷ nodes) m = index_nodes nodes (index_node feature_group n m)

unfoldable pub build_index_map : NodePool → Option NodePool
unfolding index_nodes clear_features
build_index_map p = index_nodes p.active (clear_features feature_group p.feature_map) >>= λ m.
    some (record p { feature_map = m })

unfoldable pub get_node_by_id : ℕ → NodePool → Option PoolNode
get_node_by_id id p = elim (find id p.active) [ some n ↦ n | none ↦ node_at id p.inactive ]

-- The node that changes, and the pool without it.
abbrev pub take_out : ℕ → NodePool → Option PoolNode × NodePool
take_out id p = elim (find id p.inactive) [
  | some n ↦ (n, record p { inactive = erase id p.inactive })
  | none ↦ (node_at id p.active, record p { active = erase id p.active })
]

abbrev pub put_back : Bool → ℕ → Option PoolNode × NodePool → NodePool
put_back true id (n, p) = record p { active = put id n p.active }
put_back false id (n, p) = record p { inactive = put id n p.inactive }

unfoldable pub node_status_change : Bool → ℕ → NodePool → Option NodePool
unfolding build_index_map
node_status_change is_now_active id p = build_index_map (put_back is_now_active id (take_out id p))

abbrev pub register : NodeModel → PoolNode → NodePool → NodePool × List Effect
register m n p = (
  if is_active n
      then record p { active = put m.id (some n) p.active }
      else record p { inactive = put m.id (some n) p.inactive },
  subscribe n ∷ [],
)

unfoldable pub add : (Bytes → Bool) → NodeModel → NodePool → Option (NodePool × List Effect)
unfolding is_active new_node_from_db_model
add parses m p = new_node_from_db_model parses m >>= λ n. some (register m n p)

-- The calls of `add` that initFromDB makes on the rows of the active nodes.
unfoldable pub add_all :
    (Bytes → Bool) → List NodeModel → NodePool → Option (NodePool × List Effect)
unfolding add
add_all parses [] p = some (p, [])
add_all parses (m ∷ ms) p = add parses m p >>= λ first.
    add_all parses ms first.0 >>= λ rest. some (rest.0, first.1 ++ rest.1)

unfoldable pub init_from_db :
    (Bytes → Bool) → List NodeModel → NodePool → Option (NodePool × List Effect)
unfolding add_all build_index_map
init_from_db parses ms p = add_all parses ms p >>= λ r. build_index_map r.0 >>= λ q. some (q, r.1)

-- The node that `Add` finds under the identifier.
abbrev pub old_node : ℕ → NodePool → Option PoolNode
old_node id p = elim (find id p.active) [ some n ↦ n | none ↦ node_at id p.inactive ]

-- The Init of a node that is there already runs in a goroutine of its own.
unfoldable pub add_or_init : (Bytes → Bool) → NodeModel → NodePool → Option (NodePool × List Effect)
unfolding add
add_or_init parses m p = elim (old_node m.id p) [
  | some old ↦ some (p, init old m ∷ [])
  | none ↦ add parses m p
]

unfoldable pub add_node : (Bytes → Bool) → NodeModel → NodePool → Option (NodePool × List Effect)
unfolding add_or_init build_index_map
add_node parses m p = add_or_init parses m p >>= λ r. build_index_map r.0 >>= λ q. some (q, r.1)

-- The call of `Kill`, which panics on nil.
abbrev pub kill_effect : Option PoolNode → Option (List Effect)
kill_effect none = none
kill_effect (some n) = some (kill n ∷ [])

unfoldable pub delete_entry : ℕ → NodePool → Option (NodePool × List Effect)
delete_entry id p = elim (find id p.active) [
  | some n ↦ kill_effect n >>= λ e. some (record p { active = erase id p.active }, e)
  | none ↦ elim (find id p.inactive) [
    | some n ↦ kill_effect n >>= λ e. some (record p { inactive = erase id p.inactive }, e)
    | none ↦ some (p, [])
  ]
]

unfoldable pub delete_node : ℕ → NodePool → Option (NodePool × List Effect)
unfolding build_index_map delete_entry
delete_node id p = delete_entry id p >>= λ r. build_index_map r.0 >>= λ q. some (q, r.1)

pub data Balanced : Type 0 where
  err_feature_not_exist : Balanced
  balanced : Peer PoolNode → Balanced

-- The answer, or `none` for a panic, and the balancer.
unfoldable pub balance_node_by_feature :
    Bytes → RoundRobin → NodePool → Option Balanced × RoundRobin
unfolding next_peer
balance_node_by_feature feature lb p = elim (find feature p.feature_map) [
  | none ↦ (some err_feature_not_exist, lb)
  | some nodes ↦ let r = next_peer (slice nodes) lb in (r.0 >>= λ x. some (balanced x), r.1)
]
