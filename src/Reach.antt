-- ===== src/Reach.antt =====
-- Everything that Redis can call once the module is loaded, in any order: the keyspace event
-- (library.c, line 594), the timer (lines 161, 186 and 339), the seven commands (lines 513-539)
-- and the cluster message (line 597).
pub mod Plain
pub mod Events
pub mod Commands
pub mod Owned
pub mod Config
pub mod Ready
pub mod Locals
pub mod Calls
pub mod Schedule
pub mod Answers
pub mod Effects
pub mod Audit
pub mod Quiet
pub mod Off
pub mod Paced
pub mod Whole
use redis_keyspace_amqp.Base.{ℕ, ◌≡◌, List, Bytes}
use redis_keyspace_amqp.Memory.{Outcome, done}
use redis_keyspace_amqp.System.{Env, System}
use redis_keyspace_amqp.Storage.{ListKey}
use redis_keyspace_amqp.Event.{on_keyspace_event, check_frames_and_heartbeat}
use redis_keyspace_amqp.Command.{
  amqp_connect_redis_command, amqp_disconnect_redis_command, setup_config_redis_command,
  setup_fallback_storage_size_redis_command, keymask_clean_redis_command, keymask_add_redis_command,
  keymask_set_redis_command,
}
use redis_keyspace_amqp.Cluster.{state_of, cluster_message_receiver}

-- The entry points, with what they are called with.
pub data Entry : Type 0 where
  keyspace_event : Bytes → Bytes → Entry
  timer : Entry
  connect disconnect config_set storage_size_set keymask_clean keymask_add keymask_set :
      List Bytes → Entry
  cluster_message : ℕ → Bytes → Bytes → Entry

module _ {Db : Type 0} (key : ListKey Db) (env : Env) where
  -- The state after a call that ends. Redis drops the result code.
  unfoldable pub enter : Entry → System Db → Outcome (System Db)
  enter (keyspace_event event key_name) s = state_of (on_keyspace_event key env event key_name s)
  enter timer s = done (check_frames_and_heartbeat key env s)
  enter (connect argv) s = state_of (amqp_connect_redis_command key env argv s)
  enter (disconnect argv) s = state_of (amqp_disconnect_redis_command key env argv s)
  enter (config_set argv) s = state_of (setup_config_redis_command key env argv s)
  enter (storage_size_set argv) s =
      state_of (setup_fallback_storage_size_redis_command key env argv s)
  enter (keymask_clean argv) s = state_of (keymask_clean_redis_command key env argv s)
  enter (keymask_add argv) s = state_of (keymask_add_redis_command key env argv s)
  enter (keymask_set argv) s = state_of (keymask_set_redis_command key env argv s)
  enter (cluster_message type payload beyond) s =
      cluster_message_receiver key env type payload beyond s

  -- `s'` comes after `s` by a run of calls, none of which faults.
  pub data Reaches : System Db → System Db → Type 0 where
    here : {s : System Db} → Reaches s s
    step : {s s1 s2 : System Db} (e : Entry) → enter e s ≡ done s1 → Reaches s1 s2 → Reaches s s2
