-- ===== src/Command/Runs.antt =====
-- The commands that may fault (library.c, lines 226-292, 311-345 and 375-408): what they leave as it
-- is, and how many replies they send, where they end.
use redis_keyspace_amqp.Base.{
  ℕ, ◌+◌, refl, inl, inr, true, List, [], ◌∷◌, Bytes, c_str, drop, ◌==◌, if◌then◌else◌, Bool-cases,
  arith,
}
use redis_keyspace_amqp.Wire.{redis_args_to_serialized_string}
use redis_keyspace_amqp.Strtol.{strtol}
use redis_keyspace_amqp.Strtol.Bounds.{strtol-lt}
use redis_keyspace_amqp.System.{Call, Config, Env, System, emit, delivered}
use redis_keyspace_amqp.Amqp.{redis_amqp_ok}
use redis_keyspace_amqp.Amqp.Effects.{amqp_connect-Quiet}
use redis_keyspace_amqp.Storage.{
  ListKey, redismodule_ok, redismodule_err, setup_fallback_storage, size_lt_zero-eq_false,
}
use redis_keyspace_amqp.Event.Timer.{last_timer, connect_ok}
use redis_keyspace_amqp.Event.Pace.{start_timer-IsPaced, forgotten-MayStart, greeted-IsPaced}
use redis_keyspace_amqp.Event.{is_redis_cluster, connect_configured, start_timer}
use redis_keyspace_amqp.Config.Fits.{Fits, Fitting, reset_masks-Fits, args_loop-Fits}
use redis_keyspace_amqp.Config.{
  Progress, go, stopped, rejected, finish_setup, setup_args, args_loop, reset_masks, setup_config,
  setup_fallback_storage_size_command, keymask_clean_command, keymask_add_command, add_masks,
}
use redis_keyspace_amqp.Command.{
  cluster_message_type_cmd, broadcast_redis_command, connect_answered, connect_reply,
  connect_amqp_command,
}
use redis_keyspace_amqp.Command.Answers.{
  replies, Answers, Answers-then, same-Answers, emit-Answers, Quiet-Answers, configured-Answers,
}
use redis_keyspace_amqp.Reach.Plain.{Ends, Ends-bind, Ends-any, Ends-given}

module _ {Db : Type 0} where
  -- `Answers` for a call that returns a code too.
  abbrev pub Answered : ℕ → System Db → ℕ × System Db → Type 0
  Answered n s r = Answers n s r.1

module _ {Db : Type 0} (key : ListKey Db) where
  setup_fallback_storage-Answers : (s : System Db) → Answers 0 s (setup_fallback_storage key s)
  unfolding setup_fallback_storage
  setup_fallback_storage-Answers s = rw size_lt_zero-eq_false (record {
    db = refl;
    sent = refl;
    replied = omega arith;
    timed = λ k. k;
    alive = λ k. k;
    typed = λ k. (k.0, omega arith);
    paced = λ fired k. k;
  })

  changed-Answers :
      (c : Config) (s : System Db)
      → (Fits s.config → Fits c)
      → Answers 0 s (
          setup_fallback_storage key
            (emit (Call.log "MODULE CONFIG CHANGED") (record s { config = c })))
  changed-Answers c s fits = Answers-then (configured-Answers c s fits) (
      Answers-then (emit-Answers (Call.log _) _ (refl, λ t. refl))
        (setup_fallback_storage-Answers _))

  finish_setup-Answers :
      (p : Progress) (s : System Db)
      → (Fits s.config → Fitting p)
      → Answered 0 s (finish_setup key p s)
  finish_setup-Answers (go c) s fits = changed-Answers c s fits
  finish_setup-Answers (stopped c) s fits = changed-Answers c s fits
  finish_setup-Answers (rejected c) s fits =
      Answers-then (configured-Answers c s fits) (emit-Answers (Call.log _) _ (refl, λ t. refl))

  setup_args-Answers :
      (env : Env) (args : List Bytes) (s : System Db)
      → Ends (Answered 0 s) (setup_args key env.allocator args s)
  setup_args-Answers env [] s = setup_fallback_storage-Answers s
  setup_args-Answers env (arg ∷ args) s =
      Ends-bind (λ p. Fits s.config → Fitting p) _
        (args_loop env.allocator 0 (arg ∷ args) (reset_masks (arg ∷ args) s.config)) _
        (Ends-given _ _ λ fits.
          args_loop-Fits env.allocator 0 (arg ∷ args) _
            (reset_masks-Fits (arg ∷ args) s.config fits))
        λ p fits. finish_setup-Answers p s fits

  pub setup_config-Answers :
      (env : Env) (argv : List Bytes) (arg_offset : ℕ) (s : System Db)
      → Ends (Answered 0 s) (setup_config key env argv arg_offset s)
  unfolding setup_config
  setup_config-Answers env argv arg_offset s = setup_args-Answers env (drop arg_offset argv) s

  pub size_command-Answers :
      (argv : List Bytes) (s : System Db)
      → Answered 0 s (setup_fallback_storage_size_command key argv s)
  unfolding setup_fallback_storage_size_command
  size_command-Answers [] s = same-Answers s
  size_command-Answers (name ∷ []) s = same-Answers s
  size_command-Answers (name ∷ arg ∷ []) s =
      Answers-then
        (configured-Answers (record s.config { max_size = strtol (c_str arg) }) s
          λ f. record {
            port_lt = f.port_lt;
            heartbeat_lt = f.heartbeat_lt;
            mode_le = f.mode_le;
            size_lt = strtol-lt (c_str arg);
          })
        (setup_fallback_storage-Answers _)
  size_command-Answers (name ∷ arg ∷ more ∷ args) s = same-Answers s

module _ {Db : Type 0} where
  pub keymask_clean-Answers : (s : System Db) → Answered 0 s (keymask_clean_command s)
  unfolding keymask_clean_command
  keymask_clean-Answers s = configured-Answers _ s λ f. f

module _ {Db : Type 0} (env : Env) where
  pub keymask_add-Answers :
      (argv : List Bytes) (s : System Db) → Ends (Answered 0 s) (keymask_add_command env argv s)
  unfolding keymask_add_command
  keymask_add-Answers argv s =
      Ends-bind (λ arr. Unit) _ (add_masks env.allocator argv s.config.key_masks) _
        (Ends-any _ _ λ arr. tt)
        λ arr u. configured-Answers (record s.config { key_masks = arr }) s λ f. f

  pub broadcast-Answers :
      (argv : List Bytes) (s : System Db) → Ends (Answers 0 s) (broadcast_redis_command env argv s)
  unfolding broadcast_redis_command
  broadcast-Answers argv s = elim (Bool-cases (is_redis_cluster env s)) [
    | inl cluster ↦ rw cluster (
        Ends-bind (λ text. Unit) _ (redis_args_to_serialized_string env.allocator argv) _
          (Ends-any _ _ λ text. tt)
          λ text u.
            emit-Answers (Call.send_cluster_message cluster_message_type_cmd text) s
              (refl, λ t. refl))
    | inr single ↦ rw single (same-Answers s)
  ]

module _ {Db : Type 0} (env : Env) where
  -- A connect that succeeds starts a timer and says so.
  started-Answers :
      (s : System Db)
      → Answers 1 s (
          emit
            (Call.reply_with_simple_string connect_ok)
            (record (start_timer env s) { enabled = true }))
  unfolding start_timer delivered replies last_timer
  started-Answers s = record {
    db = refl;
    sent = refl;
    replied = omega arith;
    timed = λ k. inr refl;
    alive = λ k. inr refl;
    typed = λ k. k;
    paced = λ fired k.
        greeted-IsPaced fired (record (start_timer env s) { enabled = true })
          (start_timer-IsPaced env (fired + 1) s (forgotten-MayStart fired s k));
  }

  connect_answered-Answers : (code : ℕ) (s : System Db) → Answered 1 s (connect_answered env code s)
  connect_answered-Answers code s = elim (Bool-cases (code == redis_amqp_ok)) [
    | inl good ↦ rw good (started-Answers s)
    | inr bad ↦ rw bad (emit-Answers (Call.reply_with_error _) s (refl, λ t. refl))
  ]

  connect_reply-Answers : (s : System Db) → Answered 1 s (connect_reply env s)
  unfolding connect_reply connect_configured
  connect_reply-Answers s =
      let (code, t) = connect_configured env s in
      Answers-then (Quiet-Answers {s = s} {t = t} (amqp_connect-Quiet env _ _ _ _ _ s))
        (connect_answered-Answers code t)

  connect_after-Answers :
      (code : ℕ) (s : System Db)
      → Answered 1 s (
          if code == redismodule_ok
          then connect_reply env s
          else (redismodule_err, emit Call.wrong_arity s))
  connect_after-Answers code s = elim (Bool-cases (code == redismodule_ok)) [
    | inl good ↦ rw good (connect_reply-Answers s)
    | inr bad ↦ rw bad (emit-Answers Call.wrong_arity s (refl, λ t. refl))
  ]

  pub connect_amqp_command-Answers :
      (key : ListKey Db) (argv : List Bytes) (s : System Db)
      → Ends (Answered 1 s) (connect_amqp_command key env argv s)
  unfolding connect_amqp_command
  connect_amqp_command-Answers key argv s =
      Ends-bind (Answered 0 s) (Answered 1 s) (setup_config key env argv 1 s) _
        (setup_config-Answers key env argv 1 s)
        λ (code, t) a. Answers-then a (connect_after-Answers code t)
