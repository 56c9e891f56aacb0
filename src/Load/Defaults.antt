-- ===== src/Load/Defaults.antt =====
-- The settings of a module that is loaded without any (library.c, lines 13-32, 212-224 and 294-309,
-- and library.h, lines 15-25).
use redis_keyspace_amqp.Base.{
  ℕ, ◌≤◌, ◌%◌, ◌≡◌, refl, ◌∙◌, ap, true, false, List, [], ◌∷◌, none, some, Bytes, c_str, codes,
  drop, length, arith, Bool-cases, inl, inr,
}
use redis_keyspace_amqp.Memory.{
  u64_mod, done, heap, copy_string_allocated, copy_amqp_string_allocated,
}
use redis_keyspace_amqp.StringArray.{init as string_array_init, get_length}
use redis_keyspace_amqp.System.{Call, Config, Trace, Env, System, emit}
use redis_keyspace_amqp.Storage.{
  ListKey, redismodule_ok, setup_fallback_storage, sync_fallback_storage_len, size_lt_zero-eq_false,
}
use redis_keyspace_amqp.Event.{is_redis_cluster}
use redis_keyspace_amqp.Config.{setup_config, setup_default_config, default_fallback_storage_key}
use redis_keyspace_amqp.Load.{
  redis_module_name, globals, init, create_commands, command_names, subscribe, subscription_mode,
  init_and_subscribe, on_load,
}

-- The settings in the order of README.md, with 5627 for the port.
abbrev pub default_config : Env → Config
default_config env = record {
  hostname = heap (codes "127.0.0.1");
  port = 5627;
  username = heap (codes "guest");
  password = heap (codes "guest");
  heartbeat = 30;
  exchange = record { len = 10; bytes = heap (codes "amq.direct") };
  routing_key = record { len = 21; bytes = heap (codes "redis_keyspace_events") };
  publish_props = record {
    flags = env.publish_flags;
    content_type = codes "text/plain";
    delivery_mode = 1;
  };
  max_size = 10000000;
  key_masks = string_array_init env.allocator 0 8;
}

drop_one-short : (argv : List Bytes) → length argv ≤ 1 → drop 1 argv ≡ []
drop_one-short [] h = refl
drop_one-short (a ∷ []) h = refl
drop_one-short (a ∷ b ∷ argv) h = absurd (omega arith)

module _ {Db : Type 0} (key : ListKey Db) (env : Env) where
  -- The state is set up with the defaults, apart from the trace.
  pub record Default (d : Db) (t : System Db) : Type 0 where
    pub config : t.config ≡ default_config env
    pub conn : t.conn ≡ none
    pub enabled : t.enabled ≡ false
    pub storage_key : t.storage_key ≡ codes "REDIS_MODULE-key_evt_amqp-fallback_storage"
    pub counted : t.storage_len ≡ length (key.elements d) % u64_mod
    pub db : t.db ≡ d

  -- Nothing but calls that are recorded.
  record Same (s t : System Db) : Type 0 where
    config : t.config ≡ s.config
    conn : t.conn ≡ s.conn
    enabled : t.enabled ≡ s.enabled
    storage_key : t.storage_key ≡ s.storage_key
    storage_len : t.storage_len ≡ s.storage_len
    db : t.db ≡ s.db

  create_commands-all :
      ((t : Trace) → env.create_command t ≡ true)
      → (names : List Bytes) (s : System Db)
      → ((create_commands key env names s).0 ≡ true) × Same s (create_commands key env names s).1
  unfolding create_commands
  create_commands-all free [] s = (
    refl,
    record {
      config = refl;
      conn = refl;
      enabled = refl;
      storage_key = refl;
      storage_len = refl;
      db = refl;
    },
  )
  create_commands-all free (name ∷ names) s =
      let (all, k) = create_commands-all free names (emit (Call.create_command name) s) in
      rw (free s.trace) (
        all,
        record {
          config = k.config;
          conn = k.conn;
          enabled = k.enabled;
          storage_key = k.storage_key;
          storage_len = k.storage_len;
          db = k.db;
        },
      )

  -- What `init` makes of a state, if no setting is given.
  abbrev initial : System Db → System Db
  initial s = record s {
    config = record (default_config env) {
      port = s.config.port;
      heartbeat = s.config.heartbeat;
      max_size = s.config.max_size;
    };
    storage_key = default_fallback_storage_key;
    storage_len = key.value_length s.db % u64_mod;
  }

  init-initial :
      (argv : List Bytes) (s : System Db)
      → length argv ≤ 1
      → init key env argv s ≡ done (redismodule_ok, initial s)
  unfolding init setup_default_config setup_config copy_string_allocated copy_amqp_string_allocated
      setup_fallback_storage sync_fallback_storage_len c_str
  init-initial argv s short = rw (drop_one-short argv short, size_lt_zero-eq_false) refl

  subscribe-Same :
      (mode : ℕ) (s : System Db)
      → get_length s.config.key_masks ≡ 0
      → ((subscribe key env mode s).0 ≡ redismodule_ok) × Same s (subscribe key env mode s).1
  unfolding subscribe
  subscribe-Same mode s none_yet =
      let s2 = emit (Call.subscribe_to_keyspace_events mode) s in
      rw none_yet (elim (Bool-cases (is_redis_cluster env s2)) [
        | inl cluster ↦ rw cluster (
          refl,
          record {
            config = refl;
            conn = refl;
            enabled = refl;
            storage_key = refl;
            storage_len = refl;
            db = refl;
          },
        )
        | inr single ↦ rw single (
          refl,
          record {
            config = refl;
            conn = refl;
            enabled = refl;
            storage_key = refl;
            storage_len = refl;
            db = refl;
          },
        )
      ])

  -- Loaded with at most the events mask, on a server that takes the module and its commands, and with
  -- a mask that names events, the module ends without a fault on any allocator and reports success.
  -- Its settings are the defaults of README.md but for the port, which is 5627; the storage's counter
  -- is read from the list, which is left as it is; there is no connection, and nothing is forwarded.
  pub on_load-Default :
      (argv : List Bytes) (mode : ℕ) (d : Db)
      → length argv ≤ 1
      → ((t : Trace) → env.module_init t ≡ true)
      → ((t : Trace) → env.create_command t ≡ true)
      → subscription_mode argv ≡ some mode
      → (t : System Db) × (on_load key env argv (globals d) ≡ done (redismodule_ok, t))
        × Default d t
  unfolding on_load init_and_subscribe globals get_length string_array_init
  on_load-Default argv mode d short takes free events =
      let s1 = emit (Call.module_init redis_module_name) (globals d) in
      let (all, same) = create_commands-all free (command_names key env) s1 in
      let s2 = (create_commands key env (command_names key env) s1).1 in
      let s3 = initial s2 in
      let (good, kept) = subscribe-Same mode s3 refl in
      let t = (subscribe key env mode s3).1 in
      (
        t,
        rw (takes (globals d).trace, all, init-initial argv s2 short, events)
            (ap done (λ i. (good i, t))),
        record {
          config = kept.config ∙ (λ i. (initial (record s2 { config = same.config i })).config);
          conn = kept.conn ∙ same.conn;
          enabled = kept.enabled ∙ same.enabled;
          storage_key = kept.storage_key;
          counted =
              kept.storage_len
              ∙ ap (λ n. n % u64_mod)
                  (key.value_length_lem s2.db ∙ ap (λ e. length (key.elements e)) same.db);
          db = kept.db ∙ same.db;
        },
      )
