-- ===== src/Cluster/Nodes.antt =====
-- Two nodes of a cluster and the bus between them (library.c, lines 133-210, 311-317 and 410-506):
-- clients give commands to the first, and both handle events and timers of their own.

use redis_keyspace_amqp.Base.{ℕ, ◌≡◌, refl, ◌∙◌, true, List, [], ◌∷◌, ◌++◌, Bytes, c_str}
use redis_keyspace_amqp.Memory.{done}
use redis_keyspace_amqp.System.{Call, Env, System, emit}
use redis_keyspace_amqp.Storage.{ListKey}
use redis_keyspace_amqp.Event.{is_redis_cluster, on_keyspace_event}
use redis_keyspace_amqp.Event.Filter.{ensure_timer-keeps}
use redis_keyspace_amqp.Event.Beats.{event-Ends}
use redis_keyspace_amqp.Command.{cluster_message_type_cmd, complain_if}
use redis_keyspace_amqp.Cluster.Dispatch.{Repeated, name_of, receive, Carried}
use redis_keyspace_amqp.Cluster.Bus.{entry_of, is_bad, told, IsSent}
use redis_keyspace_amqp.Reach.{
  Entry, keyspace_event, timer, connect, disconnect, config_set, storage_size_set, keymask_clean,
  keymask_add, keymask_set, cluster_message, enter,
}
use redis_keyspace_amqp.Reach.Plain.{Ends, Ends-bind, Ends-done}
use redis_keyspace_amqp.Reach.Config.{check_frames_and_heartbeat-config}

-- The bus holds the texts that are not delivered yet, oldest first.
pub record Nodes (Db : Type 0) : Type 0 where
  pub first : System Db
  pub second : System Db
  pub bus : List Bytes

-- What Redis calls without a client.
abbrev pub IsInner : Entry → Type 0
IsInner (keyspace_event event key_name) = Unit
IsInner timer = Unit
IsInner _ = ⊥

module _ {Db : Type 0} (key : ListKey Db) (env : Env) where
  event-config :
      (event key_name : Bytes) (s : System Db)
      → Ends
          (λ (r : ℕ × System Db). r.1.config ≡ s.config)
          (on_keyspace_event key env event key_name s)
  event-config event key_name s =
      event-Ends env key (λ t. t.config ≡ s.config) event key_name s
        (λ t k. k.config ∙ (ensure_timer-keeps env s).0) refl

  inner-keeps :
      (e : Entry) (s : System Db) → IsInner e → Ends (λ t. t.config ≡ s.config) (enter key env e s)
  unfolding enter
  inner-keeps (keyspace_event event key_name) s inner =
      Ends-bind (λ (r : ℕ × System Db). r.1.config ≡ s.config) (λ t. t.config ≡ s.config)
        (on_keyspace_event key env event key_name s) _ (event-config event key_name s) λ r k. k
  inner-keeps timer s inner = check_frames_and_heartbeat-config env key s
  inner-keeps (connect argv) s inner = absurd inner
  inner-keeps (disconnect argv) s inner = absurd inner
  inner-keeps (config_set argv) s inner = absurd inner
  inner-keeps (storage_size_set argv) s inner = absurd inner
  inner-keeps (keymask_clean argv) s inner = absurd inner
  inner-keeps (keymask_add argv) s inner = absurd inner
  inner-keeps (keymask_set argv) s inner = absurd inner
  inner-keeps (cluster_message type payload beyond) s inner = absurd inner

  pub inner-config :
      (e : Entry) (s t : System Db) → IsInner e → enter key env e s ≡ done t → t.config ≡ s.config
  inner-config e s t inner ends =
      Ends-done (λ u. u.config ≡ s.config) (enter key env e s) t (inner-keeps e s inner) ends

module _ {Db : Type 0} (key : ListKey Db) (sender receiver : Env) where
  -- A command at the first node puts its text on the bus, which the second can carry out. Right
  -- behind a text that is delivered the memory has nothing or a NUL, which no code sends: `beyond`.
  pub data BusReaches : Nodes Db → Nodes Db → Type 0 where
    start : {n : Nodes Db} → BusReaches n n
    command :
        {n m : Nodes Db} {s : System Db} (c : Repeated) (args : List Bytes) (text : Bytes)
        → is_redis_cluster sender (complain_if (is_bad c (name_of c ∷ args)) n.first) ≡ true
        → IsSent key sender (name_of c ∷ args)
        → Carried key receiver (name_of c ∷ args)
        → told key sender c (name_of c ∷ args) n.first
          ≡ done (
              emit
                (Call.send_cluster_message cluster_message_type_cmd text)
                (complain_if (is_bad c (name_of c ∷ args)) n.first))
        → enter key sender (entry_of c (name_of c ∷ args)) n.first ≡ done s
        → BusReaches (record n { first = s; bus = n.bus ++ text ∷ [] }) m
        → BusReaches n m
    delivery :
        {n m : Nodes Db} {t : System Db} (text beyond : Bytes) (bus : List Bytes)
        → n.bus ≡ text ∷ bus
        → c_str beyond ≡ []
        → receive key receiver text beyond n.second ≡ done t
        → BusReaches (record n { second = t; bus = bus }) m
        → BusReaches n m
    first_inner :
        {n m : Nodes Db} {s : System Db} (e : Entry)
        → IsInner e
        → enter key sender e n.first ≡ done s
        → BusReaches (record n { first = s }) m
        → BusReaches n m
    second_inner :
        {n m : Nodes Db} {t : System Db} (e : Entry)
        → IsInner e
        → enter key receiver e n.second ≡ done t
        → BusReaches (record n { second = t }) m
        → BusReaches n m
