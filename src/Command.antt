-- ===== src/Command.antt =====
-- library.c, lines 311-373 and 410-461: the commands, as a client gives them and as another node
-- of the cluster repeats them.
pub mod Replies
pub mod Answers
pub mod Runs
pub mod Off
use redis_keyspace_amqp.Base.{
  ℕ, ◌+◌, Bool, true, false, List, [], ◌∷◌, ◌++◌, Bytes, codes, ◌==◌, ltb, if◌then◌else◌, length,
}
use redis_keyspace_amqp.Memory.{Outcome, done, ◌>>=◌}
use redis_keyspace_amqp.Wire.{redis_args_to_serialized_string}
use redis_keyspace_amqp.System.{Call, Env, System, emit}
use redis_keyspace_amqp.Amqp.{redis_amqp_ok, amqp_disconnect}
use redis_keyspace_amqp.Storage.{ListKey, redismodule_ok, redismodule_err}
use redis_keyspace_amqp.Event.{decimal, connect_configured, start_timer, is_redis_cluster}
use redis_keyspace_amqp.Config.{
  setup_config, setup_fallback_storage_size_command, keymask_clean_command, keymask_add_command,
}

-- CLUSTER_MESSAGE_TYPE_CMD
abbrev pub cluster_message_type_cmd : ℕ
cluster_message_type_cmd = 191

-- The texts of the two error replies, lines 332 and 364.
abbrev pub connect_error : ℕ → Bytes
connect_error code = codes "AMQP CONNECT ERROR: " ++ decimal code

abbrev pub disconnect_error : ℕ → Bytes
disconnect_error code = codes "AMQP DISCONNECT ERROR: " ++ decimal code

module _ {Db : Type 0} (env : Env) where
  unfoldable pub broadcast_redis_command : List Bytes → System Db → Outcome (System Db)
  broadcast_redis_command argv s =
      if is_redis_cluster env s
      then (redis_args_to_serialized_string env.allocator argv >>= λ text.
          done (emit (Call.send_cluster_message cluster_message_type_cmd text) s))
      else done s

  -- lines 330-344
  abbrev pub connect_answered : ℕ → System Db → ℕ × System Db
  connect_answered code s =
      if code == redis_amqp_ok
      then (
        redismodule_ok,
        emit (Call.reply_with_simple_string (codes "AMQP CONNECT OK"))
            (record (start_timer env s) { enabled = true }),
      )
      else (redismodule_err, emit (Call.reply_with_error (connect_error code)) s)

  unfoldable pub connect_reply : System Db → ℕ × System Db
  connect_reply s = let (code, s1) = connect_configured env s in connect_answered code s1

module _ {Db : Type 0} where
  -- `if (argc …) RedisModule_WrongArity (ctx);`, with no return behind it
  abbrev pub complain_if : Bool → System Db → System Db
  complain_if bad s = if bad then emit Call.wrong_arity s else s

  -- lines 355-359
  unfoldable pub stop_timer : System Db → System Db
  stop_timer s =
      if s.timer_id == 0 then s else emit (Call.stop_timer s.timer_id) (record s { timer_id = 0 })

  -- lines 362-372
  abbrev pub disconnect_answered : ℕ → System Db → ℕ × System Db
  disconnect_answered code s =
      if code == redis_amqp_ok
      then (redismodule_ok, emit (Call.reply_with_simple_string (codes "AMQP DISCONNECT OK")) s)
      else (redismodule_err, emit (Call.reply_with_error (disconnect_error code)) s)

  unfoldable pub disconnect_reply : System Db → ℕ × System Db
  disconnect_reply s = let (code, s1) = amqp_disconnect s in disconnect_answered code s1

  unfoldable pub disconnect_amqp_command : List Bytes → System Db → ℕ × System Db
  disconnect_amqp_command argv s =
      let s1 = complain_if (ltb 1 (length argv)) s in
      disconnect_reply (stop_timer (record s1 { enabled = false }))

module _ {Db : Type 0} (key : ListKey Db) (env : Env) where
  unfoldable pub connect_amqp_command : List Bytes → System Db → Outcome (ℕ × System Db)
  connect_amqp_command argv s = do
    (res, s1) ← setup_config key env argv 1 s
    done (
        if res == redismodule_ok
        then connect_reply env s1
        else (redismodule_err, emit Call.wrong_arity s1))

  unfoldable pub amqp_connect_redis_command : List Bytes → System Db → Outcome (ℕ × System Db)
  amqp_connect_redis_command argv s = do
    s1 ← broadcast_redis_command env argv s
    connect_amqp_command argv s1

  unfoldable pub amqp_disconnect_redis_command : List Bytes → System Db → Outcome (ℕ × System Db)
  amqp_disconnect_redis_command argv s = do
    s1 ← broadcast_redis_command env argv s
    done (disconnect_amqp_command argv s1)

  unfoldable pub setup_config_redis_command : List Bytes → System Db → Outcome (ℕ × System Db)
  setup_config_redis_command argv s = do
    s1 ← broadcast_redis_command env argv (complain_if (ltb (length argv) 2) s)
    setup_config key env argv 1 s1

  unfoldable pub setup_fallback_storage_size_redis_command :
      List Bytes → System Db → Outcome (ℕ × System Db)
  setup_fallback_storage_size_redis_command argv s = do
    s1 ← broadcast_redis_command env argv (complain_if (if length argv == 2 then false else true) s)
    done (setup_fallback_storage_size_command key argv s1)

  unfoldable pub keymask_clean_redis_command : List Bytes → System Db → Outcome (ℕ × System Db)
  keymask_clean_redis_command argv s = do
    s1 ← broadcast_redis_command env argv (complain_if (ltb 1 (length argv)) s)
    done (keymask_clean_command s1)

  unfoldable pub keymask_add_redis_command : List Bytes → System Db → Outcome (ℕ × System Db)
  keymask_add_redis_command argv s = do
    s1 ← broadcast_redis_command env argv (complain_if (ltb (length argv) 2) s)
    keymask_add_command env argv s1

  unfoldable pub keymask_set_redis_command : List Bytes → System Db → Outcome (ℕ × System Db)
  keymask_set_redis_command argv s = do
    s1 ← broadcast_redis_command env argv (complain_if (ltb (length argv) 2) s)
    (res, s2) ← keymask_add_command env argv (keymask_clean_command s1).1
    done (redismodule_ok, s2)
