-- ===== src/Command/Off.antt =====
-- The commands but `connect` (library.c, lines 226-292, 311-317, 347-373 and 375-408): they do not switch
-- forwarding on.
use redis_keyspace_amqp.Base.{
  ℕ, ◌≡◌, refl, ◌∙◌, Bool, true, false, List, [], ◌∷◌, Bytes, drop, length, ltb, Bool-cases, inl,
  inr, arith,
}
use redis_keyspace_amqp.Wire.{redis_args_to_serialized_string}
use redis_keyspace_amqp.System.{Env, System}
use redis_keyspace_amqp.Amqp.{amqp_disconnect}
use redis_keyspace_amqp.Amqp.Effects.{amqp_disconnect-Quiet}
use redis_keyspace_amqp.Storage.{ListKey, setup_fallback_storage, size_lt_zero-eq_false}
use redis_keyspace_amqp.Event.{is_redis_cluster}
use redis_keyspace_amqp.Config.{
  Progress, go, stopped, rejected, finish_setup, setup_args, setup_config, args_loop, reset_masks,
  setup_fallback_storage_size_command, add_masks, keymask_add_command,
}
use redis_keyspace_amqp.Command.{
  broadcast_redis_command, complain_if, stop_timer, disconnect_answered, disconnect_reply,
  disconnect_amqp_command,
}
use redis_keyspace_amqp.Reach.Plain.{Ends, Ends-bind, Ends-any}

module _ {Db : Type 0} where
  abbrev pub Off : System Db → Type 0
  Off s = s.enabled ≡ false

  abbrev pub OffResult : ℕ × System Db → Type 0
  OffResult r = Off r.1

  pub complain_if-Off : (bad : Bool) (s : System Db) → Off s → Off (complain_if bad s)
  complain_if-Off true s off = off
  complain_if-Off false s off = off

  stop_timer-Off : (s : System Db) → Off s → Off (stop_timer s)
  unfolding stop_timer
  stop_timer-Off s off = ground arith

  disconnect_answered-Off :
      (code : ℕ) (s : System Db) → Off s → OffResult (disconnect_answered code s)
  disconnect_answered-Off code s off = ground arith

  pub disconnect-Off :
      (argv : List Bytes) (s : System Db) → OffResult (disconnect_amqp_command argv s)
  unfolding disconnect_amqp_command disconnect_reply
  disconnect-Off argv s =
      let s1 = record (complain_if (ltb 1 (length argv)) s) { enabled = false } in
      let s2 = stop_timer s1 in
      disconnect_answered-Off (amqp_disconnect s2).0 (amqp_disconnect s2).1
        ((amqp_disconnect-Quiet s2).enabled ∙ stop_timer-Off s1 refl)

module _ {Db : Type 0} (key : ListKey Db) (env : Env) where
  storage-Off : (s : System Db) → Off s → Off (setup_fallback_storage key s)
  unfolding setup_fallback_storage
  storage-Off s off = rw size_lt_zero-eq_false off

  finish-Off : (p : Progress) (s : System Db) → Off s → OffResult (finish_setup key p s)
  finish-Off (go c) s off = storage-Off _ off
  finish-Off (stopped c) s off = storage-Off _ off
  finish-Off (rejected c) s off = off

  setup_args-Off :
      (args : List Bytes) (s : System Db)
      → Off s
      → Ends OffResult (setup_args key env.allocator args s)
  setup_args-Off [] s off = storage-Off s off
  setup_args-Off (arg ∷ args) s off =
      Ends-bind (λ p. Unit) OffResult
        (args_loop env.allocator 0 (arg ∷ args) (reset_masks (arg ∷ args) s.config)) _
        (Ends-any _ _ λ p. tt) λ p u. finish-Off p s off

  pub config-Off :
      (argv : List Bytes) (s : System Db) → Off s → Ends OffResult (setup_config key env argv 1 s)
  unfolding setup_config
  config-Off argv s off = setup_args-Off (drop 1 argv) s off

  pub size-Off :
      (argv : List Bytes) (s : System Db)
      → Off s
      → OffResult (setup_fallback_storage_size_command key argv s)
  unfolding setup_fallback_storage_size_command
  size-Off [] s off = off
  size-Off (name ∷ []) s off = off
  size-Off (name ∷ arg ∷ []) s off = storage-Off _ off
  size-Off (name ∷ arg ∷ more ∷ args) s off = off

  pub add-Off :
      (argv : List Bytes) (s : System Db) → Off s → Ends OffResult (keymask_add_command env argv s)
  unfolding keymask_add_command
  add-Off argv s off =
      Ends-bind (λ arr. Unit) OffResult (add_masks env.allocator argv s.config.key_masks) _
        (Ends-any _ _ λ arr. tt) λ arr u. off

  pub broadcast-Off :
      (argv : List Bytes) (s : System Db) → Off s → Ends Off (broadcast_redis_command env argv s)
  unfolding broadcast_redis_command
  broadcast-Off argv s off = elim (Bool-cases (is_redis_cluster env s)) [
    | inl cluster ↦ rw cluster (
        Ends-bind (λ text. Unit) Off (redis_args_to_serialized_string env.allocator argv) _
          (Ends-any _ _ λ text. tt) λ text u. off)
    | inr single ↦ rw single off
  ]
