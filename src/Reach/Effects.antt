-- ===== src/Reach/Effects.antt =====
-- What every entry point does to the events and to the timer, and so every run (library.c, lines
-- 34-506).

use redis_keyspace_amqp.Base.{refl, ℕ, List, [], ◌∷◌, ◌++◌, Bytes, c_str, bytes_eq, ◌==◌}
use redis_keyspace_amqp.Memory.{Outcome, done, fault}
use redis_keyspace_amqp.Wire.{serialized_string_to_redis_args}
use redis_keyspace_amqp.System.{Call, Env, System, emit}
use redis_keyspace_amqp.Storage.{ListKey}
use redis_keyspace_amqp.Config.{keymask_clean_command, keymask_add_command}
use redis_keyspace_amqp.Event.{on_keyspace_event}
use redis_keyspace_amqp.Event.Timer.{IsTimed, IsAlive}
use redis_keyspace_amqp.Event.Beats.{event-IsTimed, event-IsAlive, check-IsTimed, check-IsAlive}
use redis_keyspace_amqp.Event.Types.{event-IsTyped, check-IsTyped}
use redis_keyspace_amqp.Config.Fits.{IsTyped}
use redis_keyspace_amqp.Ledger.Flow.{Flows, still, same_view}
use redis_keyspace_amqp.Ledger.Entries.{
  offer, on_keyspace_event-Flows, check_frames_and_heartbeat-Flows,
}
use redis_keyspace_amqp.Command.{cluster_message_type_cmd}
use redis_keyspace_amqp.Command.Answers.{
  Answers, Answers-then, same-Answers, emit-Answers, disconnect_amqp_command-Answers,
}
use redis_keyspace_amqp.Command.Runs.{
  Answered, setup_config-Answers, size_command-Answers, keymask_clean-Answers, keymask_add-Answers,
  connect_amqp_command-Answers,
}
use redis_keyspace_amqp.Cluster.{
  state_of, dispatch, dispatch_args, cluster_message_receiver, redis_command_connect,
  redis_command_disconnect, redis_command_config, redis_command_fallback_storage_size,
  redis_command_keymask_clean, redis_command_keymask_add,
}
use redis_keyspace_amqp.Reach.{
  Entry, keyspace_event, timer, connect, disconnect, config_set, storage_size_set, keymask_clean,
  keymask_add, keymask_set, cluster_message, enter,
}
use redis_keyspace_amqp.Reach.Plain.{Ends, Ends-bind, Ends-map, Ends-any, Ends-if}
use redis_keyspace_amqp.Reach.Answers.{owed, IsCommand, enter-Answers}

module _ {Db : Type 0} where
  -- `Answers` for some number of replies.
  abbrev pub Talks : System Db → System Db → Type 0
  Talks s t = (n : ℕ) × Answers n s t

module _ {Db : Type 0} (key : ListKey Db) (env : Env) where
  cleaned_add :
      (argv : List Bytes) (s : System Db)
      → Ends (Answered 0 s) (keymask_add_command env argv (keymask_clean_command s).1)
  cleaned_add argv s =
      let clean = (keymask_clean_command s).1 in
      Ends-map (Answered 0 clean) (Answered 0 s) (keymask_add_command env argv clean)
        (keymask_add-Answers env argv clean)
        λ r a.
          Answers-then {m = 0} {n = 0} {s = s} {t = clean} {u = r.1} (keymask_clean-Answers s) a

  dispatch-Talks :
      (command : Bytes) (argv : List Bytes) (s : System Db)
      → Ends (Talks s) (dispatch key env command argv s)
  unfolding dispatch
  dispatch-Talks command argv s =
      Ends-if (Talks s) (bytes_eq command redis_command_connect) _ _
        (some_replies 1 _ (connect_amqp_command-Answers env key argv s))
        (Ends-if (Talks s) (bytes_eq command redis_command_disconnect) _ _
          (_, disconnect_amqp_command-Answers argv s)
          (Ends-if (Talks s) (bytes_eq command redis_command_config) _ _
            (some_replies 0 _ (setup_config-Answers key env argv 1 s))
            (Ends-if (Talks s) (bytes_eq command redis_command_fallback_storage_size) _ _
              (_, size_command-Answers key argv s)
              (Ends-if (Talks s) (bytes_eq command redis_command_keymask_clean) _ _
                (_, keymask_clean-Answers s)
                (Ends-if (Talks s) (bytes_eq command redis_command_keymask_add) _ _
                  (some_replies 0 _ (keymask_add-Answers env argv s))
                  (Ends-if (Talks s) (bytes_eq command redis_command_keymask_add) _ _
                    (some_replies 0 _ (cleaned_add argv s)) (_, same-Answers s)))))))
    where
      some_replies :
          (n : ℕ) (o : Outcome (ℕ × System Db))
          → Ends (λ (r : ℕ × System Db). Answers n s r.1) o
          → Ends (Talks s) (state_of o)
      some_replies n o e =
          Ends-bind (λ (r : ℕ × System Db). Answers n s r.1) (Talks s) o _ e λ r a. (n, a)

  dispatch_args-Talks :
      (argv : List Bytes) (s : System Db) → Ends (Talks s) (dispatch_args key env argv s)
  dispatch_args-Talks [] s = (_, same-Answers s)
  dispatch_args-Talks (name ∷ args) s = dispatch-Talks (c_str name) (name ∷ args) s

  pub receiver-Talks :
      (type : ℕ) (payload beyond : Bytes) (s : System Db)
      → Ends (Talks s) (cluster_message_receiver key env type payload beyond s)
  unfolding cluster_message_receiver
  receiver-Talks type payload beyond s =
      let s1 = emit (Call.log "Cluster message received (type %d) from %.*s: '%.*s'") s in
      let logged : Answers 0 s s1 = emit-Answers (Call.log _) s (refl, λ t. refl) in
      Ends-if (Talks s) (type == cluster_message_type_cmd) _ _
        (Ends-bind (λ argv. Unit) _
          (serialized_string_to_redis_args env.allocator (payload ++ beyond)) _
          (Ends-any _ _ λ argv. tt)
          λ argv u.
            Ends-map (Talks s1) (Talks s) (dispatch_args key env argv s1)
              (dispatch_args-Talks argv s1) λ t a. (_, Answers-then logged a.1))
        (_, logged)

  abbrev pub offers : Entry → System Db → List Bytes
  offers (keyspace_event event key_name) s = offer env event key_name s
  offers _ s = []

  -- The ledger's actions for what is offered, the timer as well kept as it was, and every
  -- number in its C type if it was.
  pub record Effect (texts : List Bytes) (s t : System Db) : Type 0 where
    pub flows : Flows key texts s t
    pub timed : IsTimed s → IsTimed t
    pub alive : IsAlive s → IsAlive t
    pub typed : IsTyped s → IsTyped t

  Talks-Effect : (s t : System Db) → Talks s t → Effect [] s t
  Talks-Effect s t (n, a) = record {
    flows = still key s t (same_view key s t a.db a.sent);
    timed = a.timed;
    alive = a.alive;
    typed = a.typed;
  }

  command-Effect :
      (e : Entry) (s : System Db) → IsCommand e → Ends (Effect [] s) (enter key env e s)
  command-Effect e s c =
      Ends-map _ _ (enter key env e s) (enter-Answers key env e s c)
        λ t a. Talks-Effect s t (owed e, a)

  event-Effect :
      (event key_name : Bytes) (s : System Db)
      → Ends
          (Effect (offer env event key_name s) s)
          (state_of (on_keyspace_event key env event key_name s))
  event-Effect event key_name s =
      combine (on_keyspace_event key env event key_name s)
        (on_keyspace_event-Flows key env event key_name s)
        (λ k. event-IsTimed env key event key_name s k)
        (λ k. event-IsAlive env key event key_name s k)
        (λ k. event-IsTyped env key event key_name s k)
    where
      combine :
          (o : Outcome (ℕ × System Db))
          → Ends (λ (r : ℕ × System Db). Flows key (offer env event key_name s) s r.1) o
          → (IsTimed s → Ends (λ (r : ℕ × System Db). IsTimed r.1) o)
          → (IsAlive s → Ends (λ (r : ℕ × System Db). IsAlive r.1) o)
          → (IsTyped s → Ends (λ (r : ℕ × System Db). IsTyped r.1) o)
          → Ends (Effect (offer env event key_name s) s) (state_of o)
      combine fault f t a y = tt
      combine (done r) f t a y = record { flows = f; timed = t; alive = a; typed = y }

  -- What every entry point does.
  pub enter-Effect : (e : Entry) (s : System Db) → Ends (Effect (offers e s) s) (enter key env e s)
  unfolding enter
  enter-Effect (keyspace_event event key_name) s = event-Effect event key_name s
  enter-Effect timer s = record {
    flows = check_frames_and_heartbeat-Flows key env s;
    timed = λ k. check-IsTimed env key s;
    alive = λ k. check-IsAlive env key s;
    typed = λ k. check-IsTyped env key s k;
  }
  enter-Effect (connect argv) s = command-Effect (connect argv) s tt
  enter-Effect (disconnect argv) s = command-Effect (disconnect argv) s tt
  enter-Effect (config_set argv) s = command-Effect (config_set argv) s tt
  enter-Effect (storage_size_set argv) s = command-Effect (storage_size_set argv) s tt
  enter-Effect (keymask_clean argv) s = command-Effect (keymask_clean argv) s tt
  enter-Effect (keymask_add argv) s = command-Effect (keymask_add argv) s tt
  enter-Effect (keymask_set argv) s = command-Effect (keymask_set argv) s tt
  enter-Effect (cluster_message type payload beyond) s =
      Ends-map (Talks s) _ (cluster_message_receiver key env type payload beyond s)
        (receiver-Talks type payload beyond s) λ t a. Talks-Effect s t a
