-- ===== src/Load/Start.antt =====
-- The state in which Redis begins to call the module: loading it (library.c, lines 13-32, 294-309 and
-- 508-601) from its globals.
use redis_keyspace_amqp.Base.{
  ℕ, refl, inl, inr, Bool, true, false, List, [], ◌∷◌, Option, none, some, Bytes, ltb, ◌==◌,
  if◌then◌else◌, Bool-cases, arith,
}
use redis_keyspace_amqp.Memory.{
  Outcome, done, fault, copy_string_allocated, copy_amqp_string_allocated,
}
use redis_keyspace_amqp.StringArray.{get_length}
use redis_keyspace_amqp.System.{Call, Env, System, emit}
use redis_keyspace_amqp.Amqp.Handles.{IsOwned, owner}
use redis_keyspace_amqp.Storage.{ListKey, redismodule_ok}
use redis_keyspace_amqp.Event.{is_redis_cluster}
use redis_keyspace_amqp.Event.Pace.{IsPaced, Ticks-IsPaced, total}
use redis_keyspace_amqp.Event.Timer.{IsTimed, IsUntimed, Ticks-IsTimed, emit-Ticks}
use redis_keyspace_amqp.Config.{setup_config, setup_default_config}
use redis_keyspace_amqp.Config.Fits.{IsTyped}
use redis_keyspace_amqp.Command.Runs.{Answered, setup_config-Answers}
use redis_keyspace_amqp.Reach.Plain.{Ends, Ends-bind, Ends-if, IsPlain, emit-IsOwned}
use redis_keyspace_amqp.Reach.Commands.{OwnedResult, setup_config-IsOwned}
use redis_keyspace_amqp.Load.{
  redis_module_name, globals, init, create_commands, command_names, subscribe, subscribe_if,
  subscription_mode, init_and_subscribe, on_load,
}

-- Neither the broker nor the timers see the call.
abbrev IsSetup : Call → Type 0
IsSetup c = IsPlain c × IsUntimed c

module _ {Db : Type 0} where
  -- What holds at every moment: the connection is owned, a timer's identifier is a pending timer's,
  -- and every number fits its C type.
  pub record IsSound (s : System Db) : Type 0 where
    pub owned : IsOwned s
    pub timed : IsTimed s
    pub typed : IsTyped s

  -- What holds when the load begins and when it ends.
  pub record IsFresh (s : System Db) : Type 0 where
    pub owned : IsOwned s
    pub timed : IsTimed s
    pub typed : IsTyped s
    pub paced : IsPaced 0 s

  abbrev pub FreshResult : ℕ × System Db → Type 0
  FreshResult r = IsFresh r.1

  globals-IsFresh : (d : Db) → IsFresh (globals d)
  unfolding globals owner total
  globals-IsFresh d = record {
    owned = refl;
    timed = inl refl;
    typed = (
      record {
        port_lt = omega arith;
        heartbeat_lt = omega arith;
        mode_le = omega arith;
        size_lt = omega arith;
      },
      omega arith,
    );
    paced = omega arith;
  }

  emit-IsFresh : (c : Call) (s : System Db) → IsSetup c → IsFresh s → IsFresh (emit c s)
  emit-IsFresh c s k i = record {
    owned = emit-IsOwned c s k.0 i.owned;
    timed = Ticks-IsTimed s (emit c s) (emit-Ticks c s k.1) i.timed;
    typed = i.typed;
    paced = Ticks-IsPaced 0 s (emit c s) (emit-Ticks c s k.1) i.paced;
  }

  -- The defaults change texts alone.
  default-IsFresh : (s : System Db) → IsFresh s → Ends IsFresh (setup_default_config s)
  unfolding setup_default_config copy_string_allocated copy_amqp_string_allocated
  default-IsFresh s i = record {
    owned = i.owned;
    timed = i.timed;
    typed = i.typed;
    paced = i.paced;
  }

  switched-IsFresh :
      (b : Bool) (s : System Db)
      → IsFresh s
      → IsFresh (if b then record s { enabled = true } else s)
  switched-IsFresh true s i = record {
    owned = i.owned;
    timed = i.timed;
    typed = i.typed;
    paced = i.paced;
  }
  switched-IsFresh false s i = i

module _ {Db : Type 0} (key : ListKey Db) (env : Env) where
  configured-IsFresh :
      (argv : List Bytes) (s : System Db)
      → IsFresh s
      → Ends FreshResult (setup_config key env argv 1 s)
  configured-IsFresh argv s i =
      both (setup_config key env argv 1 s) (setup_config-Answers key env argv 1 s)
        (setup_config-IsOwned key env argv 1 s i.owned)
    where
      both :
          (o : Outcome (ℕ × System Db))
          → Ends (Answered 0 s) o
          → Ends OwnedResult o
          → Ends FreshResult o
      both fault a o = tt
      both (done r) a o = record {
        owned = o;
        timed = a.timed i.timed;
        typed = a.typed i.typed;
        paced = a.paced 0 i.paced;
      }

  init-IsFresh :
      (argv : List Bytes) (s : System Db) → IsFresh s → Ends FreshResult (init key env argv s)
  unfolding init
  init-IsFresh argv s i =
      Ends-bind IsFresh FreshResult _ _
        (default-IsFresh _ (record {
          owned = i.owned;
          timed = i.timed;
          typed = (
            record {
              port_lt = i.typed.0.port_lt;
              heartbeat_lt = i.typed.0.heartbeat_lt;
              mode_le = omega arith;
              size_lt = i.typed.0.size_lt;
            },
            i.typed.1,
          );
          paced = i.paced;
        }))
        λ t k. configured-IsFresh argv t k

  create_commands-IsFresh :
      (names : List Bytes) (s : System Db) → IsFresh s → IsFresh (create_commands key env names s).1
  unfolding create_commands
  create_commands-IsFresh [] s i = i
  create_commands-IsFresh (name ∷ names) s i =
      let s1 = emit (Call.create_command name) s in
      let i1 = emit-IsFresh (Call.create_command name) s (tt, λ t. refl) i in
      elim (Bool-cases (env.create_command s.trace)) [
        | inl free ↦ rw free (create_commands-IsFresh names s1 i1)
        | inr taken ↦ rw taken i1
      ]

  subscribe-IsFresh : (mode : ℕ) (s : System Db) → IsFresh s → IsFresh (subscribe key env mode s).1
  unfolding subscribe
  subscribe-IsFresh mode s i =
      let s1 = if ltb 0 (get_length s.config.key_masks) then record s { enabled = true } else s in
      let s2 = emit (Call.subscribe_to_keyspace_events mode) s1 in
      let i2 =
        emit-IsFresh (Call.subscribe_to_keyspace_events mode) s1 (tt, λ t. refl)
          (switched-IsFresh _ s i) in
      elim (Bool-cases (is_redis_cluster env s2)) [
        | inl cluster ↦
            rw cluster
              (emit-IsFresh (Call.register_cluster_message_receiver _) s2 (tt, λ t. refl) i2)
        | inr single ↦ rw single i2
      ]

  subscribe_if-IsFresh :
      (mode : Option ℕ) (s : System Db) → IsFresh s → IsFresh (subscribe_if key env mode s).1
  subscribe_if-IsFresh none s i = emit-IsFresh (Call.log _) s (tt, λ t. refl) i
  subscribe_if-IsFresh (some mode) s i = subscribe-IsFresh mode s i

  init_and_subscribe-IsFresh :
      (argv : List Bytes) (s : System Db)
      → IsFresh s
      → Ends FreshResult (init_and_subscribe key env argv s)
  unfolding init_and_subscribe
  init_and_subscribe-IsFresh argv s i =
      Ends-bind FreshResult FreshResult (init key env argv s) _ (init-IsFresh argv s i) λ r k.
        elim (Bool-cases (r.0 == redismodule_ok)) [
          | inl good ↦ rw good (subscribe_if-IsFresh (subscription_mode argv) r.1 k)
          | inr bad ↦ rw bad k
        ]

  -- Loading the module from its globals, if it ends, leaves a sound state.
  pub on_load-IsFresh :
      (argv : List Bytes) (d : Db) → Ends FreshResult (on_load key env argv (globals d))
  unfolding on_load
  on_load-IsFresh argv d =
      let s1 = emit (Call.module_init redis_module_name) (globals d) in
      let i1 =
        emit-IsFresh (Call.module_init redis_module_name) (globals d) (tt, λ t. refl)
          (globals-IsFresh d) in
      let (created, s2) = create_commands key env (command_names key env) s1 in
      let i2 = create_commands-IsFresh (command_names key env) s1 i1 in
      Ends-if FreshResult (env.module_init (globals d).trace) _ _
        (Ends-if FreshResult created _ _ (init_and_subscribe-IsFresh argv s2 i2) i2) i1
