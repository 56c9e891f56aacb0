-- ===== src/Load/Ready.antt =====
-- Loading the module (library.c, lines 294-309 and 508-601) ends, and what it leaves.
use redis_keyspace_amqp.Base.{
  ℕ, ◌≤◌, ◌≡◌, refl, sym, subst, ◌⊎◌, inl, inr, List, Option, none, some, Bytes, drop, length, ◌==◌,
  Bool-cases, arith,
}
use redis_keyspace_amqp.Memory.{Outcome, done, copy_string_allocated, copy_amqp_string_allocated}
use redis_keyspace_amqp.StringArray.{init as string_array_init}
use redis_keyspace_amqp.StringArray.Growth.{init-IsRoomy}
use redis_keyspace_amqp.System.{Call, Config, Env, System, emit}
use redis_keyspace_amqp.Storage.{ListKey, redismodule_ok, redismodule_err}
use redis_keyspace_amqp.Config.{setup_default_config}
use redis_keyspace_amqp.Config.Ready.{IsReady}
use redis_keyspace_amqp.Config.Setup.{ReadyWithin, setup_config-IsReady}
use redis_keyspace_amqp.Load.{
  redis_module_name, init, create_commands, subscribe, subscribe_if, subscription_mode,
  init_and_subscribe, on_load, command_names,
}

module _ {Db : Type 0} (key : ListKey Db) (env : Env) where
  -- A load that failed, or a configuration that is ready for the first call and has `n` masks at most.
  abbrev pub Loaded : ℕ → ℕ × System Db → Type 0
  Loaded n r =
      (r.0 ≡ redismodule_err) ⊎ (IsReady r.1.config × (length r.1.config.key_masks.cells ≤ n))

  subscribe-config : (mode : ℕ) (s : System Db) → (subscribe key env mode s).1.config ≡ s.config
  unfolding subscribe
  subscribe-config mode s = ground arith

  subscribe_if-Loaded :
      (n : ℕ) (mode : Option ℕ) (s : System Db)
      → IsReady s.config
      → length s.config.key_masks.cells ≤ n
      → Loaded n (subscribe_if key env mode s)
  subscribe_if-Loaded n none s r few = inl refl
  subscribe_if-Loaded n (some mode) s r few = inr (
      subst (λ (c : Config). IsReady c × (length c.key_masks.cells ≤ n))
        (sym (subscribe-config mode s)) (r, few))

  abbrev Ended : ℕ → Outcome (ℕ × System Db) → Type 0
  Ended n o = (r : ℕ × System Db) × (o ≡ done r) × Loaded n r

  module _ (room : 64 ≤ env.allocator.usable 8) (argv : List Bytes)
      (small : length (drop 1 argv) ≤ 2147483648) where
    init-IsReady : (s : System Db) → ReadyWithin (length (drop 1 argv)) (init key env argv s)
    unfolding init setup_default_config copy_string_allocated copy_amqp_string_allocated
        string_array_init
    init-IsReady s =
        let (r, e, ready, within) =
          setup_config-IsReady key env argv 1 _
            (record {
              hostname = tt;
              username = tt;
              password = tt;
              exchange = tt;
              routing_key = tt;
              masks = init-IsRoomy env.allocator room;
            })
            (omega arith) in
        (r, e, ready, omega arith)

    init_and_subscribe-Loaded :
        (s : System Db) → Ended (length (drop 1 argv)) (init_and_subscribe key env argv s)
    unfolding init_and_subscribe
    init_and_subscribe-Loaded s =
        let (r, e, ready, few) = init-IsReady s in
        elim (Bool-cases (r.0 == redismodule_ok)) [
          | inl good ↦ (
            subscribe_if key env (subscription_mode argv) r.1,
            rw (e, good) refl,
            subscribe_if-Loaded (length (drop 1 argv)) (subscription_mode argv) r.1 ready few,
          )
          | inr bad ↦ ((redismodule_err, r.1), rw (e, bad) refl, inl refl)
        ]

    -- With 64 bytes behind a request for 8, loading the module ends without a fault for any
    -- arguments, at most 2 ^ 31 of them after the first, and whatever Redis answers: it fails, or it
    -- leaves a configuration that is ready for the first call, with one mask at most for each
    -- argument.
    pub on_load-Loaded :
        (s : System Db)
        → (r : ℕ × System Db) × (on_load key env argv s ≡ done r) × Loaded (length (drop 1 argv)) r
    unfolding on_load
    on_load-Loaded s =
        let s1 = emit (Call.module_init redis_module_name) s in
        let (created, s2) = create_commands key env (command_names key env) s1 in
        elim (Bool-cases (env.module_init s.trace)) [
          | inr old ↦ ((redismodule_err, s1), rw old refl, inl refl)
          | inl new ↦ elim (Bool-cases created) [
            | inr taken ↦ ((redismodule_err, s2), rw (new, taken) refl, inl refl)
            | inl free ↦
                let (r, e, loaded) = init_and_subscribe-Loaded s2 in (r, rw (new, free) e, loaded)
          ]
        ]
