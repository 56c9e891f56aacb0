-- ===== src/Reach/Locals.antt =====
-- What a node does for itself on a command (library.c, lines 226-292 and 319-408) ends without a fault, and
-- leaves the configuration ready.
use redis_keyspace_amqp.Base.{
  ℕ, ◌+◌, ◌≤◌, refl, ap, List, Option, none, some, Bytes, length, ◌==◌, Bool-cases, inl, inr, arith,
}
use redis_keyspace_amqp.Memory.{done, ◌>>=◌}
use redis_keyspace_amqp.System.{Call, Env, System, emit}
use redis_keyspace_amqp.Storage.{ListKey, redismodule_ok, redismodule_err}
use redis_keyspace_amqp.Config.{
  setup_config, setup_fallback_storage_size_command, keymask_clean_command, keymask_add_command,
}
use redis_keyspace_amqp.Config.Masks.{keymask_add_command-after, length-masks_after}
use redis_keyspace_amqp.Config.Ready.{IsReady, with_masks}
use redis_keyspace_amqp.Config.Setup.{ReadyWithin, setup_config-IsReady}
use redis_keyspace_amqp.Command.{connect_reply, disconnect_amqp_command, connect_amqp_command}
use redis_keyspace_amqp.Cluster.Dispatch.{
  Repeated, connect, disconnect, config, storage_size, keymask_clean, keymask_add, local_command,
}
use redis_keyspace_amqp.Cluster.Carry.{carry, carry_known}
use redis_keyspace_amqp.Reach.Config.{connect_reply-config}
use redis_keyspace_amqp.Reach.Ready.{
  length-drop_one-le, EndsReady, state_of-Ready, same-Within, disconnect_amqp_command-config,
  keymask_clean-Ready, size_command-Ready,
}

module _ {Db : Type 0} (key : ListKey Db) (env : Env) where
  -- `n` bounds the masks with the arguments.
  abbrev pub Fits : ℕ → List Bytes → System Db → Type 0
  Fits n argv s =
      IsReady s.config × (length s.config.key_masks.cells + length argv ≤ n) × (n ≤ 2147483648)

  config_set-Ready :
      (n : ℕ) (argv : List Bytes) (s : System Db)
      → Fits n argv s
      → ReadyWithin n (setup_config key env argv 1 s)
  config_set-Ready n argv s (ready, few, small) =
      let (r, e, ready1, within) =
        setup_config-IsReady key env argv 1 s ready (omega (arith, length-drop_one-le argv)) in
      (r, e, ready1, omega (arith, length-drop_one-le argv))

  connect_amqp_command-Ready :
      (n : ℕ) (argv : List Bytes) (s : System Db)
      → Fits n argv s
      → ReadyWithin n (connect_amqp_command key env argv s)
  unfolding connect_amqp_command
  connect_amqp_command-Ready n argv s fits =
      let (r, e, ready1, few1) = config_set-Ready n argv s fits in
      elim (Bool-cases (r.0 == redismodule_ok)) [
        | inl good ↦
            let (ready2, few2) =
              same-Within {n = n} (connect_reply-config env r.1) (ready1, few1) in
            (connect_reply env r.1, rw (e, good) refl, ready2, few2)
        | inr bad ↦ ((redismodule_err, emit Call.wrong_arity r.1), rw (e, bad) refl, ready1, few1)
      ]

  keymask_add-Ready :
      (n : ℕ) (argv : List Bytes) (s : System Db)
      → Fits n argv s
      → ReadyWithin n (keymask_add_command env argv s)
  keymask_add-Ready n argv s (ready, few, small) =
      let (arr, e, cells, roomy) = keymask_add_command-after env argv s ready.masks (omega arith) in
      let t = record s { config = record s.config { key_masks = arr } } in
      (
        (redismodule_ok, t),
        e,
        with_masks arr roomy ready,
        omega (arith, ap (λ xs. length xs) cells, length-masks_after s.config.key_masks.cells argv),
      )

  pub keymask_set-Ready :
      (n : ℕ) (argv : List Bytes) (s : System Db)
      → Fits n argv s
      → ReadyWithin n (
          keymask_add_command env argv (keymask_clean_command s).1 >>= λ r.
          done (redismodule_ok, r.1))
  keymask_set-Ready n argv s (ready, few, small) =
      let (ready0, few0) = keymask_clean-Ready s ready in
      let (r, e, ready1, few1) =
        keymask_add-Ready n argv (keymask_clean_command s).1 (ready0, omega arith, small) in
      ((redismodule_ok, r.1), rw e refl, ready1, few1)

  pub local_command-Ready :
      (c : Repeated) (n : ℕ) (argv : List Bytes) (s : System Db)
      → Fits n argv s
      → EndsReady n (local_command key env c argv s)
  local_command-Ready connect n argv s fits =
      state_of-Ready n (connect_amqp_command key env argv s)
        (connect_amqp_command-Ready n argv s fits)
  local_command-Ready disconnect n argv s (ready, few, small) =
      let (ready1, few1) =
        same-Within {n = n} (disconnect_amqp_command-config argv s) (ready, omega arith) in
      ((disconnect_amqp_command argv s).1, refl, ready1, few1)
  local_command-Ready config n argv s fits =
      state_of-Ready n (setup_config key env argv 1 s) (config_set-Ready n argv s fits)
  local_command-Ready storage_size n argv s (ready, few, small) =
      let (ready1, few1) = size_command-Ready key n argv s (ready, omega arith) in
      ((setup_fallback_storage_size_command key argv s).1, refl, ready1, few1)
  local_command-Ready keymask_clean n argv s (ready, few, small) =
      let (ready1, few1) = keymask_clean-Ready s ready in
      ((keymask_clean_command s).1, refl, ready1, omega arith)
  local_command-Ready keymask_add n argv s fits =
      state_of-Ready n (keymask_add_command env argv s) (keymask_add-Ready n argv s fits)

  carry_known-Ready :
      (o : Option Repeated) (n : ℕ) (argv : List Bytes) (s : System Db)
      → Fits n argv s
      → EndsReady n (carry_known key env o argv s)
  carry_known-Ready none n argv s (ready, few, small) = (s, refl, ready, omega arith)
  carry_known-Ready (some c) n argv s fits = local_command-Ready c n argv s fits

  pub carry-Ready :
      (n : ℕ) (argv : List Bytes) (s : System Db)
      → Fits n argv s
      → EndsReady n (carry key env argv s)
  carry-Ready n argv s fits = carry_known-Ready _ n argv s fits
