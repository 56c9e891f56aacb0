-- ===== src/Cluster/Settle.antt =====
-- What is left on the bus between two nodes can be delivered (library.c, lines 463-506).
use redis_keyspace_amqp.Base.{◌≡◌, refl, ◌∙◌, ap, List, [], ◌∷◌, map, Bytes, c_str}
use redis_keyspace_amqp.Memory.{Outcome, done, fault, ◌>>=◌}
use redis_keyspace_amqp.System.{Config, Env, System}
use redis_keyspace_amqp.Storage.{ListKey}
use redis_keyspace_amqp.Cluster.Dispatch.{
  name_of, receive, received, local_command, receive-repeats,
}
use redis_keyspace_amqp.Cluster.Settings.{apply, config_out, local-apply}
use redis_keyspace_amqp.Cluster.Nodes.{Nodes, BusReaches}
use redis_keyspace_amqp.Cluster.Agree.{
  done_inj, Order, text_of, AreCarried, pending, BusReaches-Behind,
}

bind-done :
    (o : Outcome Config) (f : Config → Outcome Config) (d : Config)
    → (o >>= f) ≡ done d
    → (c : Config) × (o ≡ done c) × (f c ≡ done d)
bind-done (done c) f d e = (c, refl, e)
bind-done fault f d e = cc

config_out-inv :
    {Db : Type 0} (o : Outcome (System Db)) (c : Config)
    → config_out o ≡ done c
    → (t : System Db) × (o ≡ done t) × (t.config ≡ c)
config_out-inv (done t) c e = (t, refl, done_inj e)
config_out-inv fault c e = cc

module _ {Db : Type 0} (key : ListKey Db) (sender receiver : Env) where
  -- Deliveries one after another. `behind` is the memory behind the payload of each.
  pub data Delivers (behind : Nodes Db → Bytes) : Nodes Db → Nodes Db → Type 0 where
    none_more : {n : Nodes Db} → Delivers behind n n
    next :
        {n m : Nodes Db} {t : System Db} (text : Bytes) (bus : List Bytes)
        → n.bus ≡ text ∷ bus
        → receive key receiver text (behind n) n.second ≡ done t
        → Delivers behind (record n { second = t; bus = bus }) m
        → Delivers behind n m

  -- `m` comes after `n` by deliveries that leave nothing on the bus.
  pub record Settled (behind : Nodes Db → Bytes) (n m : Nodes Db) : Type 0 where
    pub run : Delivers behind n m
    pub over : m.bus ≡ []
    pub untouched : m.first ≡ n.first
    pub agree : m.second.config ≡ n.first.config

  Settled-more :
      (behind : Nodes Db → Bytes) (n : Nodes Db) (text : Bytes) (bus : List Bytes) (t : System Db)
      → n.bus ≡ text ∷ bus
      → receive key receiver text (behind n) n.second ≡ done t
      → (m : Nodes Db) × Settled behind (record n { second = t; bus = bus }) m
      → (m : Nodes Db) × Settled behind n m
  Settled-more behind n text bus t e ends (m, s) = (
    m,
    record {
      run = next text bus e ends s.run;
      over = s.over;
      untouched = s.untouched;
      agree = s.agree;
    },
  )

  deliver_all :
      (behind : Nodes Db → Bytes)
      → ((n : Nodes Db) → c_str (behind n) ≡ [])
      → (orders : List (Order key sender receiver)) (n : Nodes Db)
      → n.bus ≡ map (text_of key sender receiver) orders
      → AreCarried key sender receiver orders
      → pending key sender receiver orders n.second.config ≡ done n.first.config
      → (m : Nodes Db) × Settled behind n m
  deliver_all behind ended [] n e carried settings =
      (n, record { run = none_more; over = e; untouched = refl; agree = done_inj settings })
  deliver_all behind ended ((c, args) ∷ xs) n e (carried, later) settings =
      let argv = name_of c ∷ args in
      let (d, applies, rest) =
        bind-done (apply receiver.allocator c argv n.second.config) _ _ settings in
      let (t, ends, same) =
        config_out-inv (local_command key receiver c argv (received key receiver n.second)) d
          (local-apply key receiver c argv (received key receiver n.second) ∙ applies) in
      Settled-more behind n (text_of key sender receiver (c, args))
        (map (text_of key sender receiver) xs) t e
        (receive-repeats key receiver c args n.second carried (behind n) (ended n) ∙ ends)
        (deliver_all behind ended xs
          (record n { second = t; bus = map (text_of key sender receiver) xs }) refl later
          (ap (pending key sender receiver xs) same ∙ rest))

  -- If two nodes have equal settings and allocators, and nothing is on the bus, then after whatever
  -- commands clients give to the first, of six, in words without NUL and newline, the last not
  -- empty, for which the allocators have room, in any interleaving with deliveries, events and
  -- timer callbacks on both, deliveries alone can empty the bus, and none of them faults at the
  -- second node; the two nodes' settings are equal then. It is assumed that right behind each
  -- payload, where it is delivered, the memory has a NUL or ends, which the sender does not see to.
  pub BusReaches-settles :
      {n m : Nodes Db}
      → sender.allocator ≡ receiver.allocator
      → n.bus ≡ []
      → n.second.config ≡ n.first.config
      → BusReaches key sender receiver n m
      → (behind : Nodes Db → Bytes) → ((k : Nodes Db) → c_str (behind k) ≡ [])
      → (k : Nodes Db) × Settled behind m k
  BusReaches-settles {n} {m} same empty agree talk behind ended =
      let b =
        BusReaches-Behind key sender receiver same
          (record { orders = []; texts = empty; carried = tt; settings = ap done agree }) talk in
      deliver_all behind ended b.orders m b.texts b.carried b.settings
