-- ===== src/Cluster/Dispatch.antt =====
-- What a node does with a command from the cluster bus (library.c, lines 463-506), and what it
-- does not do.
use redis_keyspace_amqp.Base.{
  ◌*◌, ◌≤◌, ◌≡◌, refl, ◌∙◌, List, [], ◌∷◌, Bytes, c_str, bytes_eq, length,
}
use redis_keyspace_amqp.Memory.{Outcome, done, ptr_size}
use redis_keyspace_amqp.Wire.{join}
use redis_keyspace_amqp.Wire.RoundTrip.{Sendable, decode-join}
use redis_keyspace_amqp.System.{Call, Env, System, emit}
use redis_keyspace_amqp.Storage.{ListKey}
use redis_keyspace_amqp.Config.{
  setup_config, setup_fallback_storage_size_command, keymask_clean_command, keymask_add_command,
}
use redis_keyspace_amqp.Command.{
  cluster_message_type_cmd, connect_amqp_command, disconnect_amqp_command,
}
use redis_keyspace_amqp.Cluster.{
  redis_command_connect, redis_command_disconnect, redis_command_config,
  redis_command_fallback_storage_size, redis_command_keymask_clean, redis_command_keymask_add,
  redis_command_keymask_set, state_of, dispatch, dispatch_args, cluster_message_receiver,
}

-- The commands that a node repeats, by name and by what they do here.
pub data Repeated : Type 0 where
  connect disconnect config storage_size keymask_clean keymask_add : Repeated

abbrev pub name_of : Repeated → Bytes
name_of connect = redis_command_connect
name_of disconnect = redis_command_disconnect
name_of config = redis_command_config
name_of storage_size = redis_command_fallback_storage_size
name_of keymask_clean = redis_command_keymask_clean
name_of keymask_add = redis_command_keymask_add

module _ {Db : Type 0} (key : ListKey Db) (env : Env) where
  abbrev pub received : System Db → System Db
  received s = emit (Call.log "Cluster message received (type %d) from %.*s: '%.*s'") s

  -- `beyond` is the memory behind the payload, which line 472 reads on into.
  abbrev pub receive : Bytes → Bytes → System Db → Outcome (System Db)
  receive text beyond s = cluster_message_receiver key env cluster_message_type_cmd text beyond s

  -- The conditions under which the bus carries a command, `argv`, to another node: those of the
  -- round trip, for both nodes' allocators.
  abbrev pub Carried : List Bytes → Type 0
  Carried argv =
      Sendable argv
      × (ptr_size * length argv ≤ env.allocator.usable ptr_size)
      × (ptr_size ≤ env.allocator.usable 0)

  receive-join :
      (argv : List Bytes) (s : System Db)
      → Carried argv
      → (beyond : Bytes) → c_str beyond ≡ []
      → receive (join argv) beyond s ≡ dispatch_args key env argv (received s)
  unfolding cluster_message_receiver
  receive-join argv s (w, fit, first) beyond ended =
      rw (decode-join env.allocator argv w fit first beyond ended) refl

  abbrev pub local_command : Repeated → List Bytes → System Db → Outcome (System Db)
  local_command connect argv s = state_of (connect_amqp_command key env argv s)
  local_command disconnect argv s = done (disconnect_amqp_command argv s).1
  local_command config argv s = state_of (setup_config key env argv 1 s)
  local_command storage_size argv s = done (setup_fallback_storage_size_command key argv s).1
  local_command keymask_clean argv s = done (keymask_clean_command s).1
  local_command keymask_add argv s = state_of (keymask_add_command env argv s)

  dispatch-local :
      (c : Repeated) (args : List Bytes) (s : System Db)
      → dispatch_args key env (name_of c ∷ args) s ≡ local_command c (name_of c ∷ args) s
  unfolding dispatch bytes_eq c_str
  dispatch-local connect args s = refl
  dispatch-local disconnect args s = refl
  dispatch-local config args s = refl
  dispatch-local storage_size args s = refl
  dispatch-local keymask_clean args s = refl
  dispatch-local keymask_add args s = refl

  -- A node that receives one of six commands, whose arguments the bus carries, with nothing or a NUL
  -- right behind it, does what it does for a client of its own after the broadcast, and drops the
  -- result code.
  pub receive-repeats :
      (c : Repeated) (args : List Bytes) (s : System Db)
      → Carried (name_of c ∷ args)
      → (beyond : Bytes) → c_str beyond ≡ []
      → receive (join (name_of c ∷ args)) beyond s ≡ local_command c (name_of c ∷ args) (received s)
  receive-repeats c args s carried beyond ended =
      receive-join (name_of c ∷ args) s carried beyond ended ∙ dispatch-local c args (received s)

  dispatch-keymask_set :
      (args : List Bytes) (s : System Db)
      → dispatch_args key env (redis_command_keymask_set ∷ args) s ≡ done s
  unfolding dispatch bytes_eq c_str
  dispatch-keymask_set args s = refl

  -- The seventh command, `keymask_set`, is sent to the other nodes and does nothing there, whatever
  -- its masks: its name is never compared with. Right behind the message is nothing or a NUL.
  pub receive-keymask_set :
      (args : List Bytes) (s : System Db)
      → Carried (redis_command_keymask_set ∷ args)
      → (beyond : Bytes) → c_str beyond ≡ []
      → receive (join (redis_command_keymask_set ∷ args)) beyond s ≡ done (received s)
  receive-keymask_set args s carried beyond ended =
      receive-join (redis_command_keymask_set ∷ args) s carried beyond ended
      ∙ dispatch-keymask_set args (received s)
