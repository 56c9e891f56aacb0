-- ===== src/Cluster.antt =====
-- library.c, lines 463-506: a command that another node has sent over the cluster bus.
pub mod Dispatch
pub mod Carry
pub mod Settings
pub mod Bus
pub mod Nodes
pub mod Agree
pub mod Many
pub mod Settle
pub mod Diverge
use redis_keyspace_amqp.Base.{
  ℕ, Bool, true, false, List, [], ◌∷◌, ◌++◌, Bytes, codes, c_str, bytes_eq, ◌==◌, if◌then◌else◌,
}
use redis_keyspace_amqp.Memory.{Outcome, done, ◌>>=◌}
use redis_keyspace_amqp.Wire.{serialized_string_to_redis_args}
use redis_keyspace_amqp.System.{Call, Env, System, emit}
use redis_keyspace_amqp.Storage.{ListKey}
use redis_keyspace_amqp.Config.{
  setup_config, setup_fallback_storage_size_command, keymask_clean_command, keymask_add_command,
}
use redis_keyspace_amqp.Command.{
  cluster_message_type_cmd, connect_amqp_command, disconnect_amqp_command,
}

-- library.h, lines 7-13
abbrev pub redis_command_connect : Bytes
redis_command_connect = codes "key_evt_amqp.connect"

abbrev pub redis_command_disconnect : Bytes
redis_command_disconnect = codes "key_evt_amqp.disconnect"

abbrev pub redis_command_config : Bytes
redis_command_config = codes "key_evt_amqp.config_set"

abbrev pub redis_command_fallback_storage_size : Bytes
redis_command_fallback_storage_size = codes "key_evt_amqp.fallback_storage_size_set"

abbrev pub redis_command_keymask_clean : Bytes
redis_command_keymask_clean = codes "key_evt_amqp.keymask_clean"

abbrev pub redis_command_keymask_add : Bytes
redis_command_keymask_add = codes "key_evt_amqp.keymask_add"

abbrev pub redis_command_keymask_set : Bytes
redis_command_keymask_set = codes "key_evt_amqp.keymask_set"

module _ {Db : Type 0} where
  -- The result code of a command is dropped.
  abbrev pub state_of : Outcome (ℕ × System Db) → Outcome (System Db)
  state_of o = o >>= λ r. done r.1

module _ {Db : Type 0} (key : ListKey Db) (env : Env) where
  -- lines 478-499, the last test with the name that the code has there
  unfoldable pub dispatch : Bytes → List Bytes → System Db → Outcome (System Db)
  dispatch command argv s =
      if bytes_eq command redis_command_connect
      then state_of (connect_amqp_command key env argv s)
      else if bytes_eq command redis_command_disconnect
      then done (disconnect_amqp_command argv s).1
      else if bytes_eq command redis_command_config
      then state_of (setup_config key env argv 1 s)
      else if bytes_eq command redis_command_fallback_storage_size
      then done (setup_fallback_storage_size_command key argv s).1
      else if bytes_eq command redis_command_keymask_clean
      then done (keymask_clean_command s).1
      else if bytes_eq command redis_command_keymask_add
      then state_of (keymask_add_command env argv s)
      else if bytes_eq command redis_command_keymask_add
      then state_of (keymask_add_command env argv (keymask_clean_command s).1)
      else done s

  -- lines 474-505
  abbrev pub dispatch_args : List Bytes → System Db → Outcome (System Db)
  dispatch_args [] s = done s
  dispatch_args (name ∷ args) s = dispatch (c_str name) (name ∷ args) s

  -- `beyond` is what the memory holds behind the payload: the payload has no NUL of its own, and
  -- line 472 reads on to the first.
  unfoldable pub cluster_message_receiver : ℕ → Bytes → Bytes → System Db → Outcome (System Db)
  cluster_message_receiver type payload beyond s =
      let s1 = emit (Call.log "Cluster message received (type %d) from %.*s: '%.*s'") s in
      if type == cluster_message_type_cmd
      then (serialized_string_to_redis_args env.allocator (payload ++ beyond) >>= λ argv.
          dispatch_args argv s1)
      else done s1
