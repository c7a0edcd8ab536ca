-- ===== src/Cluster/Tests.antt =====
-- A pool of a master and a slave.
use cloudreve.Prelude.{
  ◌≡◌, refl, true, false, not, ◌&&◌, none, some, List, [], ◌∷◌, ltb, codes, eqb, find, arith, inl,
  inr,
}
use cloudreve.Balancer.{RoundRobin}
use cloudreve.Cluster.{
  NodeModel, NodePool, slave_node_type, master_node_type, new_node_pool, new_node, can_init,
  new_node_from_db_model, add, add_or_init, is_feature_enabled, Effect, add_node, delete_node,
  node_status_change, Balanced, balance_node_by_feature,
}
use cloudreve.Cluster.Valid.{IsPool}
use cloudreve.Cluster.Contract.{
  AddEnds, Becomes, node_status_change-Becomes, add_node-Becomes, delete_node-Becomes,
  node_status_change_unknown,
}
use cloudreve.Cluster.Balance.{Chosen, balance_node_by_feature-Chosen}
use cloudreve.Cluster.Ping.{
  ping_ok, ping_error, new_ping_loop, ping_rounds, ping_round, change_status, answered, failures,
  told, ping_rounds-IsPingLoop,
}

abbrev master : NodeModel
master = record { id = 1; model_type = master_node_type; server = []; aria2_enabled = true }

abbrev slave : NodeModel
slave = record {
  id = 2;
  model_type = slave_node_type;
  server = codes "http://a";
  aria2_enabled = true;
}

abbrev lb : RoundRobin
lb = record { current = 0 }

empty-IsPool : IsPool new_node_pool
unfolding find
empty-IsPool = record {
  active_no_nil = tt;
  inactive_no_nil = tt;
  apart = λ id. inl refl;
  only_aria2 = λ f other. refl;
  indexed = inl refl;
}

-- The pool after Add of the slave.
abbrev one_slave : NodePool
one_slave = record {
  active = (2, some (new_node slave)) ∷ [];
  inactive = [];
  feature_map = (codes "aria2", new_node slave ∷ []) ∷ [];
}

one_slave-IsPool : IsPool one_slave
unfolding find is_feature_enabled eqb
one_slave-IsPool = record {
  active_no_nil = tt;
  inactive_no_nil = tt;
  apart = λ id. inr refl;
  only_aria2 = λ f other. rw other refl;
  indexed = inr refl;
}

node_status_change-Becomes_example :
    (q : NodePool) × (node_status_change false 2 one_slave ≡ some q)
    × Becomes 2 (some (false, some (new_node slave))) one_slave q
node_status_change-Becomes_example =
    node_status_change-Becomes false 2 one_slave true (some (new_node slave)) one_slave-IsPool
      (unfold find in refl)

-- A server that is not parsed makes the addition of a slave panic.
bad_server : add_node (λ s. false) slave new_node_pool ≡ none
unfolding add_node add_or_init add new_node_from_db_model can_init find
bad_server = refl

add_node-Becomes_example :
    AddEnds (λ s. true) master one_slave (add_node (λ s. true) master one_slave)
add_node-Becomes_example = add_node-Becomes (λ s. true) master one_slave one_slave-IsPool

delete_node-Becomes_example :
    (r : NodePool × List Effect) × (delete_node 2 one_slave ≡ some r) × Becomes 2 none one_slave r.0
delete_node-Becomes_example = delete_node-Becomes 2 one_slave one_slave-IsPool

node_status_change_unknown_example : node_status_change true 7 one_slave ≡ none
node_status_change_unknown_example = node_status_change_unknown 7 one_slave (unfold find in refl)

balance_node_by_feature-Chosen_example :
    (b : Balanced) × ((balance_node_by_feature (codes "aria2") lb one_slave).0 ≡ some b)
    × Chosen (codes "aria2") one_slave b
balance_node_by_feature-Chosen_example =
    balance_node_by_feature-Chosen (codes "aria2") lb one_slave one_slave-IsPool

-- Two errors in a row with a threshold of 2, and a recovery.
two_errors :
    (ping_rounds 2 (ping_error ∷ ping_error ∷ ping_ok ∷ []) (new_ping_loop true)).1
    ≡ false ∷ true ∷ []
unfolding ping_rounds ping_round change_status
two_errors = refl

-- A loop that is started again on a node that is offline.
ping_rounds-IsPingLoop_example :
    let r = ping_rounds 2 (ping_error ∷ ping_error ∷ []) (new_ping_loop false) in
    (r.0.active ≡ (
      answered false (ping_error ∷ ping_error ∷ [])
      && ltb (failures 0 (ping_error ∷ ping_error ∷ [])) 2))
    × (r.0.recover_mode ≡ not (ltb (failures 0 (ping_error ∷ ping_error ∷ [])) 2))
    × (told false r.1 ≡ r.0.active)
ping_rounds-IsPingLoop_example =
    ping_rounds-IsPingLoop 2 false (ping_error ∷ ping_error ∷ []) (omega arith)
