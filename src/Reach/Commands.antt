-- ===== src/Reach/Commands.antt =====
-- The commands and the cluster messages (library.c, lines 226-506) keep to one live connection.
use redis_keyspace_amqp.Base.{
  ℕ, Bool, true, false, List, [], ◌∷◌, Bytes, drop, length, ltb, ◌==◌, Bool-cases, inl, inr,
}
use redis_keyspace_amqp.Wire.{redis_args_to_serialized_string}
use redis_keyspace_amqp.System.{Call, Env, System}
use redis_keyspace_amqp.Amqp.{redis_amqp_ok, amqp_disconnect}
use redis_keyspace_amqp.Amqp.Handles.{IsOwned, amqp_disconnect-IsOwned}
use redis_keyspace_amqp.Storage.{ListKey, setup_fallback_storage, size_lt_zero-eq_false}
use redis_keyspace_amqp.Event.{is_redis_cluster}
use redis_keyspace_amqp.Config.{
  Progress, go, stopped, rejected, finish_setup, setup_args, args_loop, reset_masks, setup_config,
  setup_fallback_storage_size_command, keymask_add_command, add_masks,
}
use redis_keyspace_amqp.Command.{
  cluster_message_type_cmd, broadcast_redis_command, complain_if, stop_timer, disconnect_answered,
  disconnect_reply, disconnect_amqp_command,
}
use redis_keyspace_amqp.Reach.Plain.{Ends, Ends-bind, Ends-any, emit-IsOwned}

module _ {Db : Type 0} where
  -- `IsOwned` for a call that returns a code too.
  abbrev pub OwnedResult : ℕ × System Db → Type 0
  OwnedResult r = IsOwned r.1

  pub complain_if-IsOwned : (bad : Bool) (s : System Db) → IsOwned s → IsOwned (complain_if bad s)
  complain_if-IsOwned true s o = emit-IsOwned Call.wrong_arity s tt o
  complain_if-IsOwned false s o = o

  stop_timer-IsOwned : (s : System Db) → IsOwned s → IsOwned (stop_timer s)
  unfolding stop_timer
  stop_timer-IsOwned s o = elim (Bool-cases (s.timer_id == 0)) [
    | inl idle ↦ rw idle o
    | inr set ↦ rw set (emit-IsOwned (Call.stop_timer s.timer_id) (record s { timer_id = 0 }) tt o)
  ]

  disconnect_answered-IsOwned :
      (code : ℕ) (s : System Db) → IsOwned s → OwnedResult (disconnect_answered code s)
  disconnect_answered-IsOwned code s o = elim (Bool-cases (code == redis_amqp_ok)) [
    | inl good ↦ rw good (emit-IsOwned (Call.reply_with_simple_string _) s tt o)
    | inr bad ↦ rw bad (emit-IsOwned (Call.reply_with_error _) s tt o)
  ]

  pub disconnect_amqp_command-IsOwned :
      (argv : List Bytes) (s : System Db) → IsOwned s → OwnedResult (disconnect_amqp_command argv s)
  unfolding disconnect_amqp_command disconnect_reply
  disconnect_amqp_command-IsOwned argv s o =
      let c = complain_if-IsOwned (ltb 1 (length argv)) s o in
      let s1 = record (complain_if (ltb 1 (length argv)) s) { enabled = false } in
      let s2 = stop_timer s1 in
      disconnect_answered-IsOwned (amqp_disconnect s2).0 (amqp_disconnect s2).1
        (amqp_disconnect-IsOwned s2 (stop_timer-IsOwned s1 c))

module _ {Db : Type 0} (key : ListKey Db) where
  setup_fallback_storage-IsOwned :
      (s : System Db) → IsOwned s → IsOwned (setup_fallback_storage key s)
  unfolding setup_fallback_storage
  setup_fallback_storage-IsOwned s o = rw size_lt_zero-eq_false o

  finish_setup-IsOwned :
      (p : Progress) (s : System Db) → IsOwned s → OwnedResult (finish_setup key p s)
  finish_setup-IsOwned (go c) s o =
      setup_fallback_storage-IsOwned _
        (emit-IsOwned (Call.log "MODULE CONFIG CHANGED") (record s { config = c }) tt o)
  finish_setup-IsOwned (stopped c) s o =
      setup_fallback_storage-IsOwned _
        (emit-IsOwned (Call.log "MODULE CONFIG CHANGED") (record s { config = c }) tt o)
  finish_setup-IsOwned (rejected c) s o =
      emit-IsOwned (Call.log "Wrong value for deliveryMode") (record s { config = c }) tt o

  setup_args-IsOwned :
      (env : Env) (args : List Bytes) (s : System Db)
      → IsOwned s
      → Ends OwnedResult (setup_args key env.allocator args s)
  setup_args-IsOwned env [] s o = setup_fallback_storage-IsOwned s o
  setup_args-IsOwned env (arg ∷ args) s o =
      Ends-bind (λ p. Unit) OwnedResult
        (args_loop env.allocator 0 (arg ∷ args) (reset_masks (arg ∷ args) s.config)) _
        (Ends-any _ _ λ p. tt) λ p u. finish_setup-IsOwned p s o

  pub setup_config-IsOwned :
      (env : Env) (argv : List Bytes) (arg_offset : ℕ) (s : System Db)
      → IsOwned s
      → Ends OwnedResult (setup_config key env argv arg_offset s)
  unfolding setup_config
  setup_config-IsOwned env argv arg_offset s o = setup_args-IsOwned env (drop arg_offset argv) s o

  pub size_command-IsOwned :
      (argv : List Bytes) (s : System Db)
      → IsOwned s
      → OwnedResult (setup_fallback_storage_size_command key argv s)
  unfolding setup_fallback_storage_size_command
  size_command-IsOwned [] s o = o
  size_command-IsOwned (name ∷ []) s o = o
  size_command-IsOwned (name ∷ arg ∷ []) s o = setup_fallback_storage-IsOwned _ o
  size_command-IsOwned (name ∷ arg ∷ more ∷ args) s o = o

module _ {Db : Type 0} (env : Env) (argv : List Bytes) (s : System Db) (o : IsOwned s) where
  pub keymask_add_command-IsOwned : Ends OwnedResult (keymask_add_command env argv s)
  unfolding keymask_add_command
  keymask_add_command-IsOwned =
      Ends-bind (λ arr. Unit) OwnedResult (add_masks env.allocator argv s.config.key_masks) _
        (Ends-any _ _ λ arr. tt) λ arr u. o

  pub broadcast-IsOwned : Ends IsOwned (broadcast_redis_command env argv s)
  unfolding broadcast_redis_command
  broadcast-IsOwned = elim (Bool-cases (is_redis_cluster env s)) [
    | inl cluster ↦ rw cluster (
        Ends-bind (λ text. Unit) IsOwned (redis_args_to_serialized_string env.allocator argv) _
          (Ends-any _ _ λ text. tt)
          λ text u. emit-IsOwned (Call.send_cluster_message cluster_message_type_cmd text) s tt o)
    | inr single ↦ rw single o
  ]
