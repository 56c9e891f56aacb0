-- ===== src/Cluster/Many.antt =====
-- A cluster of any number of nodes (library.c, lines 133-210, 311-317 and 410-506): clients give commands
-- to one of them, and the bus brings each command to all others, to each at a time of its own.
use redis_keyspace_amqp.Base.{
  ℕ, ◌≡◌, subst, true, List, [], ◌∷◌, ◌++◌, Bytes, c_str, ◌==◌, ==_iff, if◌then◌else◌, Bool,
  Bool-cases, inl, inr,
}
use redis_keyspace_amqp.Memory.{done}
use redis_keyspace_amqp.System.{Call, Env, System, emit}
use redis_keyspace_amqp.Storage.{ListKey}
use redis_keyspace_amqp.Event.{is_redis_cluster}
use redis_keyspace_amqp.Command.{cluster_message_type_cmd, complain_if}
use redis_keyspace_amqp.Cluster.Dispatch.{Repeated, name_of, receive, Carried}
use redis_keyspace_amqp.Cluster.Bus.{entry_of, is_bad, told, IsSent}
use redis_keyspace_amqp.Cluster.Nodes
use redis_keyspace_amqp.Cluster.Nodes.{Nodes, IsInner, BusReaches}
use redis_keyspace_amqp.Cluster.Agree.{BusReaches-agrees}
use redis_keyspace_amqp.Reach.{Entry, enter}

-- The node that clients talk to, the others, and for each of these the texts on their way to it.
pub record Cluster (Db : Type 0) : Type 0 where
  pub first : System Db
  pub node : ℕ → System Db
  pub bus : ℕ → List Bytes

abbrev pub update {ℓ} : {A : Type ℓ} → (ℕ → A) → ℕ → A → ℕ → A
update f i x j = if i == j then x else f j

module _ {Db : Type 0} (key : ListKey Db) (sender : Env) (receivers : ℕ → Env) where
  pub data ClusterReaches : Cluster Db → Cluster Db → Type 0 where
    start : {n : Cluster Db} → ClusterReaches n n
    command :
        {n m : Cluster Db} {s : System Db} (c : Repeated) (args : List Bytes) (text : Bytes)
        → is_redis_cluster sender (complain_if (is_bad c (name_of c ∷ args)) n.first) ≡ true
        → IsSent key sender (name_of c ∷ args)
        → ((i : ℕ) → Carried key (receivers i) (name_of c ∷ args))
        → told key sender c (name_of c ∷ args) n.first
          ≡ done (
              emit
                (Call.send_cluster_message cluster_message_type_cmd text)
                (complain_if (is_bad c (name_of c ∷ args)) n.first))
        → enter key sender (entry_of c (name_of c ∷ args)) n.first ≡ done s
        → ClusterReaches (record n { first = s; bus = λ i. n.bus i ++ text ∷ [] }) m
        → ClusterReaches n m
    delivery :
        {n m : Cluster Db} {t : System Db} (i : ℕ) (text beyond : Bytes) (bus : List Bytes)
        → n.bus i ≡ text ∷ bus
        → c_str beyond ≡ []
        → receive key (receivers i) text beyond (n.node i) ≡ done t
        → ClusterReaches (record n { node = update n.node i t; bus = update n.bus i bus }) m
        → ClusterReaches n m
    first_inner :
        {n m : Cluster Db} {s : System Db} (e : Entry)
        → IsInner e
        → enter key sender e n.first ≡ done s
        → ClusterReaches (record n { first = s }) m
        → ClusterReaches n m
    node_inner :
        {n m : Cluster Db} {t : System Db} (i : ℕ) (e : Entry)
        → IsInner e
        → enter key (receivers i) e (n.node i) ≡ done t
        → ClusterReaches (record n { node = update n.node i t }) m
        → ClusterReaches n m

  abbrev pair : ℕ → Cluster Db → Nodes Db
  pair i n = record { first = n.first; second = n.node i; bus = n.bus i }

  -- Each node, with the first, takes part in a run of two nodes.
  pair-BusReaches :
      (i : ℕ) {n m : Cluster Db}
      → ClusterReaches n m
      → BusReaches key sender (receivers i) (pair i n) (pair i m)
  pair-BusReaches i start = Nodes.start
  pair-BusReaches i (command c args text cluster sent carried tells ends rest) =
      Nodes.command c args text cluster sent (carried i) tells ends (pair-BusReaches i rest)
  pair-BusReaches i (first_inner e inner ends rest) =
      Nodes.first_inner e inner ends (pair-BusReaches i rest)
  pair-BusReaches i {n} {m} (delivery {t = t} j text beyond bus e ended ends rest) =
      let after : Bool → Nodes Db = λ b. record {
        first = n.first;
        second = if b then t else n.node i;
        bus = if b then bus else n.bus i;
      } in
      let later = pair-BusReaches i rest in
      elim (Bool-cases (j == i)) [
        | inl same ↦
            let here = (==_iff j i).0 same in
            Nodes.delivery text beyond bus (subst (λ k. n.bus k ≡ text ∷ bus) here e) ended
              (subst (λ k. receive key (receivers k) text beyond (n.node k) ≡ done t) here ends)
              (subst (λ b. BusReaches key sender (receivers i) (after b) (pair i m)) same later)
        | inr another ↦
            subst (λ b. BusReaches key sender (receivers i) (after b) (pair i m)) another later
      ]
  pair-BusReaches i {n} {m} (node_inner {t = t} j e inner ends rest) =
      let after : Bool → Nodes Db =
        λ b. record { first = n.first; second = if b then t else n.node i; bus = n.bus i } in
      let later = pair-BusReaches i rest in
      elim (Bool-cases (j == i)) [
        | inl same ↦
            let here = (==_iff j i).0 same in
            Nodes.second_inner e inner
              (subst (λ k. enter key (receivers k) e (n.node k) ≡ done t) here ends)
              (subst (λ b. BusReaches key sender (receivers i) (after b) (pair i m)) same later)
        | inr another ↦
            subst (λ b. BusReaches key sender (receivers i) (after b) (pair i m)) another later
      ]

  -- If all nodes of a cluster have equal settings and allocators, and nothing is on the bus, then
  -- whatever commands clients give to one of them, of six, in words without NUL and newline, the
  -- last not empty, for which the allocators have room, in any interleaving with deliveries, events
  -- and timer callbacks on all nodes: a node to which no message is on its way has the settings of
  -- that one, however many other nodes there are. It is assumed that right behind each payload,
  -- where it is delivered, the memory has a NUL or ends, which the sender does not see to.
  pub ClusterReaches-agrees :
      {n m : Cluster Db}
      → ((i : ℕ) → sender.allocator ≡ (receivers i).allocator)
      → ((i : ℕ) → n.bus i ≡ [])
      → ((i : ℕ) → (n.node i).config ≡ n.first.config)
      → ClusterReaches n m
      → (i : ℕ) → m.bus i ≡ []
      → (m.node i).config ≡ m.first.config
  ClusterReaches-agrees same empty agree talk i over =
      BusReaches-agrees key sender (receivers i) (same i) (empty i) (agree i)
        (pair-BusReaches i talk) over
