-- ===== src/Load.antt =====
-- library.c, lines 294-309 and 508-601: loading the module.
pub mod Events
pub mod Ready
pub mod Start
pub mod Defaults
use redis_keyspace_amqp.Base.{
  ℕ, ◌+◌, Bool, true, false, List, [], ◌∷◌, Option, none, some, Byte, Bytes, codes, c_str, bit_or,
  ◌==◌, ltb, if◌then◌else◌, length,
}
use redis_keyspace_amqp.Memory.{Text, null, literal, Outcome, done, ◌>>=◌}
use redis_keyspace_amqp.StringArray.{init as string_array_init, get_length}
use redis_keyspace_amqp.System.{Call, Env, System, emit}
use redis_keyspace_amqp.Storage.{ListKey, redismodule_ok, redismodule_err}
use redis_keyspace_amqp.Event.{is_redis_cluster}
use redis_keyspace_amqp.Config.{setup_config, setup_default_config}
use redis_keyspace_amqp.Command.{cluster_message_type_cmd}
use redis_keyspace_amqp.Cluster.{
  redis_command_connect, redis_command_disconnect, redis_command_config,
  redis_command_fallback_storage_size, redis_command_keymask_clean, redis_command_keymask_add,
  redis_command_keymask_set,
}

-- library.h, lines 6, 16, 19, 22 and 25
abbrev pub redis_module_name : Bytes
redis_module_name = codes "key_evt_amqp"

abbrev pub default_fallback_storage_size : ℕ
default_fallback_storage_size = 10000000

abbrev pub default_amqp_port : ℕ
default_amqp_port = 5627

abbrev pub default_amqp_heartbeat : ℕ
default_amqp_heartbeat = 30

abbrev pub default_amqp_delivery_mode : ℕ
default_amqp_delivery_mode = 1

-- The globals before the module is loaded, lines 13-32. A pointer to an array or to a Redis string
-- that is NULL until `init` is empty here: nothing reads it before.
unfoldable pub globals : {Db : Type 0} → Db → System Db
globals d = record {
  config = record {
    hostname = literal [];
    port = default_amqp_port;
    username = literal [];
    password = literal [];
    heartbeat = default_amqp_heartbeat;
    exchange = record { len = 0; bytes = null };
    routing_key = record { len = 0; bytes = null };
    publish_props = record { flags = 0; content_type = []; delivery_mode = 0 };
    max_size = default_fallback_storage_size;
    key_masks = record { size = 0; capacity = 0; block = 0; cells = [] };
  };
  conn = none;
  timer_id = 0;
  enabled = false;
  storage_key = [];
  storage_len = 0;
  db = d;
  trace = [];
}

-- redismodule.h, lines 92-101
abbrev pub notify_generic : ℕ
notify_generic = 4

abbrev pub notify_string : ℕ
notify_string = 8

abbrev pub notify_list : ℕ
notify_list = 16

abbrev pub notify_set : ℕ
notify_set = 32

abbrev pub notify_hash : ℕ
notify_hash = 64

abbrev pub notify_zset : ℕ
notify_zset = 128

abbrev pub notify_expired : ℕ
notify_expired = 256

abbrev pub notify_evicted : ℕ
notify_evicted = 512

abbrev pub notify_stream : ℕ
notify_stream = 1024

-- The bit-wise or of the nine flags.
abbrev pub notify_all : ℕ
notify_all =
    notify_generic + notify_string + notify_list + notify_set + notify_hash + notify_zset
    + notify_expired + notify_evicted + notify_stream

-- The `switch`, lines 552-583; `none` is its default.
unfoldable pub flag_of : Byte → Option ℕ
flag_of c =
    if c == b'g'
    then some notify_generic
    else if c == b'$'
    then some notify_string
    else if c == b'l'
    then some notify_list
    else if c == b's'
    then some notify_set
    else if c == b'h'
    then some notify_hash
    else if c == b'z'
    then some notify_zset
    else if c == b'x'
    then some notify_expired
    else if c == b'e'
    then some notify_evicted
    else if c == b'A'
    then some notify_all
    else none

-- lines 551-584
unfoldable pub events_loop : ℕ → Bytes → Option ℕ
events_loop mode [] = some mode
events_loop mode (c ∷ mask) = elim (flag_of c) [
  | none ↦ none
  | some flag ↦ events_loop (bit_or mode flag) mask
]

-- lines 545-587
unfoldable pub subscription_mode : List Bytes → Option ℕ
subscription_mode [] = some (notify_expired + notify_evicted)
subscription_mode (mask ∷ args) = events_loop 0 (c_str mask)

module _ {Db : Type 0} (key : ListKey Db) (env : Env) where
  unfoldable pub init : List Bytes → System Db → Outcome (ℕ × System Db)
  init argv s = do
    let c = record s.config {
      publish_props = record {
        flags = env.publish_flags;
        content_type = codes "text/plain";
        delivery_mode = default_amqp_delivery_mode;
      };
      key_masks = string_array_init env.allocator 0 8;
    }
    s1 ← setup_default_config (record s { config = c })
    setup_config key env argv 1 s1

  -- lines 513-539: stop at the first command that Redis does not take
  unfoldable pub create_commands : List Bytes → System Db → Bool × System Db
  create_commands [] s = (true, s)
  create_commands (name ∷ names) s =
      let s1 = emit (Call.create_command name) s in
      let rest = create_commands names s1 in
      if env.create_command s.trace then rest else (false, s1)

  abbrev pub command_names : List Bytes
  command_names =
      redis_command_connect ∷ redis_command_disconnect ∷ redis_command_config
      ∷ redis_command_fallback_storage_size ∷ redis_command_keymask_clean
      ∷ redis_command_keymask_add ∷ redis_command_keymask_set ∷ []

  -- lines 590-600
  unfoldable pub subscribe : ℕ → System Db → ℕ × System Db
  subscribe mode s =
      let s1 = if ltb 0 (get_length s.config.key_masks) then record s { enabled = true } else s in
      let s2 = emit (Call.subscribe_to_keyspace_events mode) s1 in
      (
        redismodule_ok,
        if is_redis_cluster env s2
            then emit (Call.register_cluster_message_receiver cluster_message_type_cmd) s2
            else s2,
      )

  -- lines 545-600
  abbrev pub subscribe_if : Option ℕ → System Db → ℕ × System Db
  subscribe_if none s = (
    redismodule_err,
    emit
        (Call.log
          "Wrong events mask mode. Use 'g$lshzxeA' like 'notify-keyspace-events' for CONFIG SET")
        s,
  )
  subscribe_if (some mode) s = subscribe mode s

  -- lines 541-600
  unfoldable pub init_and_subscribe : List Bytes → System Db → Outcome (ℕ × System Db)
  init_and_subscribe argv s = do
    (res, s1) ← init argv s
    done (
        if res == redismodule_ok
        then subscribe_if (subscription_mode argv) s1
        else (redismodule_err, s1))

  unfoldable pub on_load : List Bytes → System Db → Outcome (ℕ × System Db)
  on_load argv s =
      let s1 = emit (Call.module_init redis_module_name) s in
      let (created, s2) = create_commands command_names s1 in
      if env.module_init s.trace
      then (if created then init_and_subscribe argv s2 else done (redismodule_err, s2))
      else done (redismodule_err, s1)
