-- ===== src/Cluster/Settings.antt =====
-- What a command does to the settings (library.c, lines 226-292, 319-345 and 375-461): it depends on
-- the settings and the allocator alone, not on the connection, the storage or the calls before.
use redis_keyspace_amqp.Base.{
  ℕ, ◌≡◌, refl, sym, ◌∙◌, ap, List, [], ◌∷◌, Bytes, c_str, drop, ◌==◌, if◌then◌else◌, Bool-cases,
  inl, inr,
}
use redis_keyspace_amqp.Memory.{Allocator, Outcome, done, fault, ◌>>=◌}
use redis_keyspace_amqp.StringArray.{clean}
use redis_keyspace_amqp.Strtol.{strtol}
use redis_keyspace_amqp.System.{Call, Config, Env, System, emit}
use redis_keyspace_amqp.Storage.{ListKey, redismodule_ok, redismodule_err}
use redis_keyspace_amqp.Config.{
  Progress, args_loop, reset_masks, finish_setup, setup_args, setup_config,
  setup_fallback_storage_size_command, keymask_clean_command, add_masks, keymask_add_command,
}
use redis_keyspace_amqp.Config.Setup.{config_of, finish-config}
use redis_keyspace_amqp.Config.Size.{setup-config}
use redis_keyspace_amqp.Command.{connect_reply, connect_amqp_command}
use redis_keyspace_amqp.Cluster.{state_of}
use redis_keyspace_amqp.Cluster.Dispatch.{
  Repeated, connect, disconnect, config, storage_size, keymask_clean, keymask_add, local_command,
}
use redis_keyspace_amqp.Reach.Config.{connect_reply-config}
use redis_keyspace_amqp.Reach.Ready.{disconnect_amqp_command-config}

module _ (al : Allocator) where
  abbrev settings_after : List Bytes → Config → Outcome Config
  settings_after [] c = done c
  settings_after (arg ∷ args) c =
      args_loop al 0 (arg ∷ args) (reset_masks (arg ∷ args) c) >>= λ p. done (config_of p)

  abbrev resized_by : List Bytes → Config → Config
  resized_by (name ∷ arg ∷ []) c = record c { max_size = strtol (c_str arg) }
  resized_by _ c = c

  -- The settings after a command.
  abbrev pub apply : Repeated → List Bytes → Config → Outcome Config
  apply connect argv c = settings_after (drop 1 argv) c
  apply disconnect argv c = done c
  apply config argv c = settings_after (drop 1 argv) c
  apply storage_size argv c = done (resized_by argv c)
  apply keymask_clean argv c = done (record c { key_masks = clean c.key_masks })
  apply keymask_add argv c =
      add_masks al argv c.key_masks >>= λ arr. done (record c { key_masks = arr })

module _ {Db : Type 0} where
  abbrev pub config_out : Outcome (System Db) → Outcome Config
  config_out o = o >>= λ t. done t.config

  pub config_out-done :
      (o : Outcome (System Db)) (t : System Db) (x : Outcome Config)
      → config_out o ≡ x
      → o ≡ done t
      → x ≡ done t.config
  config_out-done o t x e h = sym e ∙ ap config_out h

module _ {Db : Type 0} (key : ListKey Db) (env : Env) where
  finished :
      (o : Outcome Progress) (s : System Db)
      → config_out (state_of (o >>= λ p. done (finish_setup key p s)))
        ≡ (o >>= λ p. done (config_of p))
  finished (done p) s = ap done (finish-config key env p s)
  finished fault s = refl

  setup_config-settings :
      (args : List Bytes) (s : System Db)
      → config_out (state_of (setup_args key env.allocator args s))
        ≡ settings_after env.allocator args s.config
  setup_config-settings [] s = ap done (setup-config key s)
  setup_config-settings (arg ∷ args) s =
      finished (args_loop env.allocator 0 (arg ∷ args) (reset_masks (arg ∷ args) s.config)) s

  connect-after :
      (o : Outcome (ℕ × System Db))
      → config_out (
          state_of (
            o >>= λ r. done (
              if r.0 == redismodule_ok
              then connect_reply env r.1
              else (redismodule_err, emit Call.wrong_arity r.1))))
        ≡ config_out (state_of o)
  connect-after fault = refl
  connect-after (done r) = elim (Bool-cases (r.0 == redismodule_ok)) [
    | inl good ↦ rw good (ap done (connect_reply-config env r.1))
    | inr bad ↦ rw bad refl
  ]

  resized-by :
      (argv : List Bytes) (s : System Db)
      → (setup_fallback_storage_size_command key argv s).1.config
        ≡ resized_by env.allocator argv s.config
  unfolding setup_fallback_storage_size_command
  resized-by [] s = refl
  resized-by (name ∷ []) s = refl
  resized-by (name ∷ arg ∷ []) s =
      setup-config key (record s { config = record s.config { max_size = strtol (c_str arg) } })
  resized-by (name ∷ arg ∷ more ∷ args) s = refl

  added :
      (o : Outcome _) (s : System Db)
      → config_out (
          state_of (
            o >>= λ arr.
            done (redismodule_ok, record s { config = record s.config { key_masks = arr } })))
        ≡ (o >>= λ arr. done (record s.config { key_masks = arr }))
  added (done arr) s = refl
  added fault s = refl

  pub local-apply :
      (c : Repeated) (argv : List Bytes) (s : System Db)
      → config_out (local_command key env c argv s) ≡ apply env.allocator c argv s.config
  unfolding setup_config connect_amqp_command keymask_clean_command keymask_add_command
  local-apply connect argv s =
      connect-after (setup_config key env argv 1 s) ∙ setup_config-settings (drop 1 argv) s
  local-apply disconnect argv s = ap done (disconnect_amqp_command-config argv s)
  local-apply config argv s = setup_config-settings (drop 1 argv) s
  local-apply storage_size argv s = ap done (resized-by argv s)
  local-apply keymask_clean argv s = refl
  local-apply keymask_add argv s = added (add_masks env.allocator argv s.config.key_masks) s
