-- ===== src/Reach/Owned.antt =====
-- Every entry point of the module (library.c, lines 133-161, 180-210 and 410-506), and so every run,
-- keeps to one live connection.
use redis_keyspace_amqp.Base.{
  ℕ, subst, true, false, List, [], ◌∷◌, ◌++◌, Bytes, c_str, bytes_eq, ◌==◌, if◌then◌else◌, Bool,
  Bool-cases, inl, inr,
}
use redis_keyspace_amqp.Memory.{Outcome, ◌>>=◌}
use redis_keyspace_amqp.Wire.{serialized_string_to_redis_args}
use redis_keyspace_amqp.System.{Call, Env, System, emit}
use redis_keyspace_amqp.Amqp.{redis_amqp_ok}
use redis_keyspace_amqp.Amqp.Handles.{NeverNull, IsOwned}
use redis_keyspace_amqp.Storage.{ListKey, redismodule_ok, redismodule_err}
use redis_keyspace_amqp.Event.{start_timer}
use redis_keyspace_amqp.Config.{setup_config, keymask_clean_command, keymask_add_command}
use redis_keyspace_amqp.Command.{
  cluster_message_type_cmd, broadcast_redis_command, connect_answered, connect_reply, complain_if,
  connect_amqp_command, amqp_connect_redis_command, amqp_disconnect_redis_command,
  setup_config_redis_command, setup_fallback_storage_size_redis_command,
  keymask_clean_redis_command, keymask_add_redis_command, keymask_set_redis_command,
}
use redis_keyspace_amqp.Cluster.{
  state_of, dispatch, dispatch_args, cluster_message_receiver, redis_command_connect,
  redis_command_disconnect, redis_command_config, redis_command_fallback_storage_size,
  redis_command_keymask_clean, redis_command_keymask_add,
}
use redis_keyspace_amqp.Reach.{
  Entry, keyspace_event, timer, connect, disconnect, config_set, storage_size_set, keymask_clean,
  keymask_add, keymask_set, cluster_message, enter, Reaches, here, step,
}
use redis_keyspace_amqp.Reach.Plain.{Ends, Ends-bind, Ends-any, Ends-if, emit-IsOwned}
use redis_keyspace_amqp.Reach.Events.{
  connect_configured-IsOwned, start_timer-IsOwned, on_keyspace_event-IsOwned,
  check_frames_and_heartbeat-IsOwned,
}
use redis_keyspace_amqp.Reach.Commands.{
  OwnedResult, complain_if-IsOwned, disconnect_amqp_command-IsOwned, setup_config-IsOwned,
  size_command-IsOwned, keymask_add_command-IsOwned, broadcast-IsOwned,
}

module _ {Db : Type 0} (key : ListKey Db) (env : Env) (never : NeverNull env) where
  connect_answered-IsOwned :
      (code : ℕ) (s : System Db) → IsOwned s → OwnedResult (connect_answered env code s)
  connect_answered-IsOwned code s o = elim (Bool-cases (code == redis_amqp_ok)) [
    | inl good ↦ rw good (
        emit-IsOwned (Call.reply_with_simple_string _)
          (record (start_timer env s) { enabled = true }) tt (start_timer-IsOwned env never s o))
    | inr bad ↦ rw bad (emit-IsOwned (Call.reply_with_error _) s tt o)
  ]

  connect_reply-IsOwned : (s : System Db) → IsOwned s → OwnedResult (connect_reply env s)
  unfolding connect_reply
  connect_reply-IsOwned s o =
      connect_answered-IsOwned _ _ (connect_configured-IsOwned env never s o)

  configured-IsOwned :
      (res : ℕ) (s : System Db)
      → IsOwned s
      → OwnedResult (
          if res == redismodule_ok
          then connect_reply env s
          else (redismodule_err, emit Call.wrong_arity s))
  configured-IsOwned res s o = elim (Bool-cases (res == redismodule_ok)) [
    | inl good ↦ rw good (connect_reply-IsOwned s o)
    | inr bad ↦ rw bad (emit-IsOwned Call.wrong_arity s tt o)
  ]

  connect_amqp_command-IsOwned :
      (argv : List Bytes) (s : System Db)
      → IsOwned s
      → Ends OwnedResult (connect_amqp_command key env argv s)
  unfolding connect_amqp_command
  connect_amqp_command-IsOwned argv s o =
      Ends-bind OwnedResult OwnedResult (setup_config key env argv 1 s) _
        (setup_config-IsOwned key env argv 1 s o) λ r k. configured-IsOwned r.0 r.1 k

  -- The result code is dropped.
  state_of-IsOwned : (r : Outcome (ℕ × System Db)) → Ends OwnedResult r → Ends IsOwned (state_of r)
  state_of-IsOwned r e = Ends-bind OwnedResult IsOwned r _ e λ x k. k

  -- A command after its broadcast.
  after_broadcast :
      (bad : Bool) (argv : List Bytes) (s : System Db) (f : System Db → Outcome (ℕ × System Db))
      → IsOwned s
      → ((t : System Db) → IsOwned t → Ends OwnedResult (f t))
      → Ends IsOwned (state_of (broadcast_redis_command env argv (complain_if bad s) >>= f))
  after_broadcast bad argv s f o k =
      let s1 = complain_if bad s in
      state_of-IsOwned _ (
        Ends-bind IsOwned OwnedResult (broadcast_redis_command env argv s1) f
          (broadcast-IsOwned env argv s1 (complain_if-IsOwned bad s o)) k)

  dispatch-IsOwned :
      (command : Bytes) (argv : List Bytes) (s : System Db)
      → IsOwned s
      → Ends IsOwned (dispatch key env command argv s)
  unfolding dispatch keymask_clean_command
  dispatch-IsOwned command argv s o =
      let own = state_of-IsOwned in
      let clean = (keymask_clean_command s).1 in
      Ends-if IsOwned (bytes_eq command redis_command_connect) _ _
        (own _ (connect_amqp_command-IsOwned argv s o))
        (Ends-if IsOwned (bytes_eq command redis_command_disconnect) _ _
          (disconnect_amqp_command-IsOwned argv s o)
          (Ends-if IsOwned (bytes_eq command redis_command_config) _ _
            (own _ (setup_config-IsOwned key env argv 1 s o))
            (Ends-if IsOwned (bytes_eq command redis_command_fallback_storage_size) _ _
              (size_command-IsOwned key argv s o)
              (Ends-if IsOwned (bytes_eq command redis_command_keymask_clean) _ _ o (
                Ends-if IsOwned (bytes_eq command redis_command_keymask_add) _ _
                  (own _ (keymask_add_command-IsOwned env argv s o))
                  (Ends-if IsOwned (bytes_eq command redis_command_keymask_add) _ _
                    (own _ (keymask_add_command-IsOwned env argv clean o)) o))))))

  dispatch_args-IsOwned :
      (argv : List Bytes) (s : System Db) → IsOwned s → Ends IsOwned (dispatch_args key env argv s)
  dispatch_args-IsOwned [] s o = o
  dispatch_args-IsOwned (name ∷ args) s o = dispatch-IsOwned (c_str name) (name ∷ args) s o

  receiver-IsOwned :
      (type : ℕ) (payload beyond : Bytes) (s : System Db)
      → IsOwned s
      → Ends IsOwned (cluster_message_receiver key env type payload beyond s)
  unfolding cluster_message_receiver
  receiver-IsOwned type payload beyond s o =
      let o1 = emit-IsOwned (Call.log _) s tt o in
      Ends-if IsOwned (type == cluster_message_type_cmd) _ _
        (Ends-bind (λ argv. Unit) IsOwned
          (serialized_string_to_redis_args env.allocator (payload ++ beyond)) _
          (Ends-any _ _ λ argv. tt) λ argv u. dispatch_args-IsOwned argv _ o1)
        o1

  -- Each entry point, called where the connection is owned, leaves it owned if it ends.
  enter-IsOwned : (e : Entry) (s : System Db) → IsOwned s → Ends IsOwned (enter key env e s)
  unfolding enter amqp_connect_redis_command amqp_disconnect_redis_command
      setup_config_redis_command setup_fallback_storage_size_redis_command
      keymask_clean_redis_command keymask_add_redis_command keymask_set_redis_command
      keymask_clean_command
  enter-IsOwned (keyspace_event event key_name) s o =
      state_of-IsOwned _ (on_keyspace_event-IsOwned env never key event key_name s o)
  enter-IsOwned timer s o = check_frames_and_heartbeat-IsOwned env never key s o
  enter-IsOwned (connect argv) s o =
      after_broadcast false argv s _ o λ t k. connect_amqp_command-IsOwned argv t k
  enter-IsOwned (disconnect argv) s o =
      after_broadcast false argv s _ o λ t k. disconnect_amqp_command-IsOwned argv t k
  enter-IsOwned (config_set argv) s o =
      after_broadcast _ argv s _ o λ t k. setup_config-IsOwned key env argv 1 t k
  enter-IsOwned (storage_size_set argv) s o =
      after_broadcast _ argv s _ o λ t k. size_command-IsOwned key argv t k
  enter-IsOwned (keymask_clean argv) s o = after_broadcast _ argv s _ o λ t k. k
  enter-IsOwned (keymask_add argv) s o =
      after_broadcast _ argv s _ o λ t k. keymask_add_command-IsOwned env argv t k
  enter-IsOwned (keymask_set argv) s o = after_broadcast _ argv s _ o λ t k.
      Ends-bind OwnedResult OwnedResult (keymask_add_command env argv (keymask_clean_command t).1) _
        (keymask_add_command-IsOwned env argv (keymask_clean_command t).1 k) λ r k'. k'
  enter-IsOwned (cluster_message type payload beyond) s o = receiver-IsOwned type payload beyond s o

  -- In every run of events, timer callbacks, commands and cluster messages, in whatever order and
  -- whatever the broker and the network answer, the module opens no connection beside a live one,
  -- calls librabbitmq with the live handle alone, and never with one that it has destroyed; and
  -- `conn` is the live handle, or NULL where there is none; if amqp_new_connection returns no NULL.
  pub Reaches-IsOwned : {s s' : System Db} → IsOwned s → Reaches key env s s' → IsOwned s'
  Reaches-IsOwned o here = o
  Reaches-IsOwned {s} o (step e ends rest) =
      Reaches-IsOwned (subst (Ends IsOwned) ends (enter-IsOwned e s o)) rest
