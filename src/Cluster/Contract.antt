-- ===== src/Cluster/Contract.antt =====
-- What the methods of the pool promise, over the view of it as a map from identifiers to nodes with
-- their status.
use cloudreve.Prelude.{
  ℕ, ◌==◌, ◌≡◌, refl, sym, ◌⊎◌, inl, inr, ◌∙◌, Bool, true, false, Option, none, some, List, [], ◌∷◌,
  Bytes, ◌>>=◌, find, put, nat_eq, bytes_eq,
}
use cloudreve.Cluster.{
  ModelType, slave_node_type, master_node_type, NodeModel, PoolNode, NodePool, Effect, init,
  subscribe, new_node, build_index_map, take_out, node_status_change, index_nodes, node_at,
  can_init, add_or_init, add_node, delete_node,
}
use cloudreve.Cluster.Valid.{IsPool, build_index_map-IsPool, IsPool-IsUnindexed}
use cloudreve.Cluster.Members.{Says, status_of, status}
use cloudreve.Cluster.Moves.{
  added, put_back-Says, delete_entry-Says, AddOrInit, was_known, new, fails, add_or_init-Ends,
}

-- `q` is a valid pool that says `s` of `id`, and of the others what `p` says.
pub record Becomes (id : ℕ) (s : Option (Bool × Option PoolNode)) (p q : NodePool) : Type 0 where
  pub valid : IsPool q
  pub here : status_of id q ≡ s
  pub elsewhere : (j : ℕ) → (j == id) ≡ false → status_of j q ≡ status_of j p

indexed-Becomes :
    {id : ℕ} {s : Option (Bool × Option PoolNode)} {p q : NodePool}
    → Says id s p q
    → (r : NodePool) × (build_index_map q ≡ some r) × Becomes id s p r
indexed-Becomes {id} {s} {p} {q} h =
    let built = build_index_map-IsPool q h.valid in
    let same : (j : ℕ) → status_of j built.0 ≡ status_of j q = λ j. rw (built.3, built.4) refl in
    (
      built.0,
      built.1,
      record {
        valid = built.2;
        here = same id ∙ h.here;
        elsewhere = λ j other. same j ∙ h.elsewhere j other;
      },
    )

-- A node that the pool knows changes its status.
pub node_status_change-Becomes :
    (b : Bool) (id : ℕ) (p : NodePool) (old : Bool) (n : Option PoolNode)
    → IsPool p
    → status_of id p ≡ some (old, n)
    → (q : NodePool) × (node_status_change b id p ≡ some q) × Becomes id (some (b, n)) p q
unfolding node_status_change
node_status_change-Becomes b id p old n h at =
    indexed-Becomes (put_back-Says id p (IsPool-IsUnindexed h) b old n at)

-- A new node that starts: a master, or a slave whose server is parsed.
pub data Starts (parses : Bytes → Bool) (m : NodeModel) : Type 0 where
  starts_master : m.model_type ≡ master_node_type → Starts parses m
  starts_slave : parses m.server ≡ true → Starts parses m

ModelType-cases : (t : ModelType) → (t ≡ slave_node_type) ⊎ (t ≡ master_node_type)
ModelType-cases slave_node_type = inl refl
ModelType-cases master_node_type = inr refl

-- The results of Add: the panic of the Init of a new node, and a valid pool, in which a node that was
-- known has its status still and a new one is there with its row.
pub data AddEnds (parses : Bytes → Bool) (m : NodeModel) (p : NodePool)
    : Option (NodePool × List Effect) → Type 0 where
  keeps :
      (q : NodePool) (b : Bool) (n : PoolNode)
      → status_of m.id p ≡ some (b, some n)
      → Becomes m.id (some (b, some n)) p q
      → AddEnds parses m p (some (q, init n m ∷ []))
  adds :
      (q : NodePool)
      → status_of m.id p ≡ none
      → Starts parses m
      → Becomes m.id (added m none) p q
      → AddEnds parses m p (some (q, subscribe (new_node m) ∷ []))
  panics :
      status_of m.id p ≡ none
      → m.model_type ≡ slave_node_type
      → parses m.server ≡ false
      → AddEnds parses m p none

can_init-Starts :
    (parses : Bytes → Bool) (m : NodeModel) → can_init parses m ≡ true → Starts parses m
unfolding can_init
can_init-Starts parses m h = elim (ModelType-cases m.model_type) [
  | inl e ↦
      let asked : can_init parses m ≡ parses m.server = rw (can_init, e) refl in
      starts_slave (sym asked ∙ h)
  | inr e ↦ starts_master e
]

cannot_init :
    (parses : Bytes → Bool) (m : NodeModel)
    → can_init parses m ≡ false
    → (m.model_type ≡ slave_node_type) × (parses m.server ≡ false)
unfolding can_init
cannot_init parses m h = elim (ModelType-cases m.model_type) [
  | inl e ↦
      let asked : can_init parses m ≡ parses m.server = rw (can_init, e) refl in (e, sym asked ∙ h)
  | inr e ↦
      let fine : can_init parses m ≡ true = rw (can_init, e) refl in
      let no_way : ⊥ = cc in elim no_way [ ]
]

-- The end of Add, after the part that holds the mutex.
indexed_end : Option (NodePool × List Effect) → Option (NodePool × List Effect)
indexed_end r = r >>= λ x. build_index_map x.0 >>= λ q. some (q, x.1)

indexed-AddEnds :
    (parses : Bytes → Bool) (m : NodeModel) (p : NodePool) (r : Option (NodePool × List Effect))
    → AddOrInit parses m p r
    → AddEnds parses m p (indexed_end r)
unfolding indexed_end
indexed-AddEnds parses m p _ (was_known q b n here says) =
    let built = indexed-Becomes says in rw (built.1, ◌>>=◌) (keeps built.0 b n here built.2)
indexed-AddEnds parses m p _ (new q here good says) =
    let built = indexed-Becomes says in
    rw (built.1, ◌>>=◌) (adds built.0 here (can_init-Starts parses m good) built.2)
indexed-AddEnds parses m p _ (fails here bad) =
    let why = cannot_init parses m bad in panics here why.0 why.1

-- On a valid pool Add keeps the status of a node that it knows and has it take the new row by Init;
-- it adds a node that it does not know, with its row, if this is a master or its server is parsed,
-- and subscribes to its status, and panics if not. But for the
-- panic the pool is valid after it, with its index built again, and the other nodes are as before.
pub add_node-Becomes :
    (parses : Bytes → Bool) (m : NodeModel) (p : NodePool)
    → IsPool p
    → AddEnds parses m p (add_node parses m p)
unfolding add_node indexed_end
add_node-Becomes parses m p h =
    indexed-AddEnds parses m p (add_or_init parses m p)
      (add_or_init-Ends parses m p (IsPool-IsUnindexed h))

pub delete_node-Becomes :
    (id : ℕ) (p : NodePool)
    → IsPool p
    → (r : NodePool × List Effect) × (delete_node id p ≡ some r) × Becomes id none p r.0
unfolding delete_node
delete_node-Becomes id p h =
    let d = delete_entry-Says id p (IsPool-IsUnindexed h) in
    let built = indexed-Becomes d.2 in
    ((built.0, d.0.1), rw (d.1, ◌>>=◌, built.1, ◌>>=◌) refl, built.2)

status_none : (a i : Option (Option PoolNode)) → status a i ≡ none → (a ≡ none) × (i ≡ none)
status_none none none h = (refl, refl)
status_none none (some n) h = let no_way : ⊥ = cc in elim no_way [ ]
status_none (some n) i h = let no_way : ⊥ = cc in elim no_way [ ]

-- A node that the pool does not know, such as one that was deleted while its ping was under way: a
-- change to active makes the pool panic, since its index is built over nil.
pub node_status_change_unknown :
    (id : ℕ) (p : NodePool) → status_of id p ≡ none → node_status_change true id p ≡ none
unfolding node_status_change build_index_map index_nodes put
node_status_change_unknown id p h =
    let out = status_none (find id p.active) (find id p.inactive) h in
    rw (take_out, out.1, node_at, out.0, ◌>>=◌) refl
