-- ===== src/Reach/Off.antt =====
-- Forwarding that is switched off (library.c, lines 27, 136, 181, 341, 353 and 591): only `connect`, or
-- the load, switches it on again.
use redis_keyspace_amqp.Base.{
  ℕ, ◌≡◌, ◌≢◌, refl, ◌∙◌, some, ◌++◌, c_str, Bool, false, not, List, [], ◌∷◌, Bytes, Bool-cases,
  inl, inr, arith,
}
use redis_keyspace_amqp.Memory.{Outcome, done, fault, ◌>>=◌}
use redis_keyspace_amqp.System.{Env, System, delivered}
use redis_keyspace_amqp.Storage.{ListKey}
use redis_keyspace_amqp.Event.{check_frames_and_heartbeat, on_keyspace_event}
use redis_keyspace_amqp.Event.Filter.{on_keyspace_event-off}
use redis_keyspace_amqp.Config.{keymask_clean_command, keymask_add_command}
use redis_keyspace_amqp.Command.{
  broadcast_redis_command, complain_if, amqp_disconnect_redis_command, setup_config_redis_command,
  setup_fallback_storage_size_redis_command, keymask_clean_redis_command, keymask_add_redis_command,
  keymask_set_redis_command,
}
use redis_keyspace_amqp.Wire.Fields.{fields}
use redis_keyspace_amqp.Cluster.{state_of, cluster_message_receiver}
use redis_keyspace_amqp.Cluster.Dispatch
use redis_keyspace_amqp.Cluster.Dispatch.{Repeated, received}
use redis_keyspace_amqp.Cluster.Carry.{known}
use redis_keyspace_amqp.Reach.Effects.{Talks, receiver-Talks}
use redis_keyspace_amqp.Ledger.Flow.{view, same_view}
use redis_keyspace_amqp.Reach.{
  Entry, keyspace_event, timer, connect, disconnect, config_set, storage_size_set, keymask_clean,
  keymask_add, keymask_set, cluster_message, enter,
}
use redis_keyspace_amqp.Reach.Plain.{Ends, Ends-bind, Ends-map, Ends-done}
use redis_keyspace_amqp.Reach.Answers.{IsCommand, owed, enter-Answers}
use redis_keyspace_amqp.Command.Answers.{Answers}
use redis_keyspace_amqp.Command.Off.{
  Off, OffResult, complain_if-Off, disconnect-Off, config-Off, size-Off, add-Off, broadcast-Off,
}
use redis_keyspace_amqp.Reach.Quiet.{IsQuiet, message-Off}
use redis_keyspace_amqp.Reach.Schedule.{enter_all}

abbrev pub AreQuiet : List Entry → Type 0
AreQuiet [] = Unit
AreQuiet (e ∷ es) = IsQuiet e × AreQuiet es

module _ {Db : Type 0} (key : ListKey Db) (env : Env) where
  run-Off :
      (bad : Bool) (argv : List Bytes) (s : System Db) (f : System Db → Outcome (ℕ × System Db))
      → Off s
      → ((t : System Db) → Off t → Ends OffResult (f t))
      → Ends Off (state_of (broadcast_redis_command env argv (complain_if bad s) >>= f))
  run-Off bad argv s f off k =
      let told = broadcast_redis_command env argv (complain_if bad s) in
      Ends-bind OffResult Off (told >>= f) _
        (Ends-bind Off OffResult told f (broadcast-Off key env argv _ (complain_if-Off bad s off))
          k)
        λ r o. o

  command-Off :
      (e : Entry) (s : System Db) → IsCommand e → IsQuiet e → Off s → Ends Off (enter key env e s)
  unfolding enter amqp_disconnect_redis_command setup_config_redis_command
      setup_fallback_storage_size_redis_command keymask_clean_redis_command
      keymask_add_redis_command keymask_set_redis_command keymask_clean_command
  command-Off (keyspace_event event key_name) s c q off = absurd c
  command-Off timer s c q off = absurd c
  command-Off (cluster_message type payload beyond) s c q off = absurd c
  command-Off (connect argv) s c q off = absurd q
  command-Off (disconnect argv) s c q off = run-Off false argv s _ off λ t o. disconnect-Off argv t
  command-Off (config_set argv) s c q off =
      run-Off _ argv s _ off λ t o. config-Off key env argv t o
  command-Off (storage_size_set argv) s c q off =
      run-Off _ argv s _ off λ t o. size-Off key env argv t o
  command-Off (keymask_clean argv) s c q off = run-Off _ argv s _ off λ t o. o
  command-Off (keymask_add argv) s c q off = run-Off _ argv s _ off λ t o. add-Off key env argv t o
  command-Off (keymask_set argv) s c q off = run-Off _ argv s _ off λ t o.
      Ends-bind OffResult OffResult (keymask_add_command env argv (keymask_clean_command t).1) _
        (add-Off key env argv (keymask_clean_command t).1 o) λ r k. k

  -- Forwarding stays off, and the broker and the storage hold what they held.
  abbrev Idle : System Db → System Db → Type 0
  Idle s t = Off t × (view key t ≡ view key s)

  Ends-both :
      (s : System Db) (o : Outcome (System Db)) → Ends Off o → Ends (Talks s) o → Ends (Idle s) o
  Ends-both s fault a k = tt
  Ends-both s (done t) a (n, k) = (a, same_view key s t k.db k.sent)

  command-Idle :
      (e : Entry) (s : System Db)
      → IsCommand e
      → IsQuiet e
      → Off s
      → Ends (Idle s) (enter key env e s)
  command-Idle e s c q off =
      Ends-both s (enter key env e s) (command-Off e s c q off)
        (Ends-map (Answers (owed e) s) (Talks s) _ (enter-Answers key env e s c) λ t a. (owed e, a))

  event-Idle :
      (event key_name : Bytes) (s : System Db)
      → Off s
      → Ends (Idle s) (state_of (on_keyspace_event key env event key_name s))
  event-Idle event key_name s off =
      rw (on_keyspace_event-off key env event key_name s (ground arith)) (off, refl)

  timer-Idle : (s : System Db) → Off s → Idle s (check_frames_and_heartbeat key env s)
  unfolding check_frames_and_heartbeat
  timer-Idle s off = elim (Bool-cases (not s.enabled)) [
    | inl is_off ↦ rw is_off (off, refl)
    | inr on ↦ absurd (ground arith)
  ]

  message-Idle :
      (type : ℕ) (payload beyond : Bytes) (s : System Db)
      → known (fields (c_str (payload ++ beyond))) ≢ some Dispatch.connect
      → Off s
      → Ends (Idle s) (cluster_message_receiver key env type payload beyond s)
  message-Idle type payload beyond s q off =
      Ends-both s (cluster_message_receiver key env type payload beyond s)
        (message-Off key env type payload beyond s q off)
        (receiver-Talks key env type payload beyond s)

  enter-Idle : (e : Entry) (s : System Db) → IsQuiet e → Off s → Ends (Idle s) (enter key env e s)
  unfolding enter
  enter-Idle (keyspace_event event key_name) s q off = event-Idle event key_name s off
  enter-Idle timer s q off = timer-Idle s off
  enter-Idle (connect argv) s q off = absurd q
  enter-Idle (disconnect argv) s q off = command-Idle (disconnect argv) s tt tt off
  enter-Idle (config_set argv) s q off = command-Idle (config_set argv) s tt tt off
  enter-Idle (storage_size_set argv) s q off = command-Idle (storage_size_set argv) s tt tt off
  enter-Idle (keymask_clean argv) s q off = command-Idle (keymask_clean argv) s tt tt off
  enter-Idle (keymask_add argv) s q off = command-Idle (keymask_add argv) s tt tt off
  enter-Idle (keymask_set argv) s q off = command-Idle (keymask_set argv) s tt tt off
  enter-Idle (cluster_message type payload beyond) s q off =
      message-Idle type payload beyond s q off

  all-Idle :
      (es : List Entry) (s : System Db)
      → AreQuiet es
      → Off s
      → Ends (Idle s) (enter_all key env es s)
  unfolding enter_all
  all-Idle [] s q off = (off, refl)
  all-Idle (e ∷ es) s (q, qs) off =
      Ends-bind (Idle s) (Idle s) (enter key env e s) (enter_all key env es) (enter-Idle e s q off)
        λ t (off', same).
          Ends-map (Idle t) (Idle s) (enter_all key env es t) (all-Idle es t qs off')
            λ u (off2, same2). (off2, same2 ∙ same)

  -- Where forwarding is disabled, it stays so in any sequence of events, timer callbacks, commands and
  -- cluster messages without `connect`, neither as a command nor as the first field of a message,
  -- whatever masks they set: as long as none faults, no event reaches the broker or the storage, and
  -- none leaves the storage.
  pub enter_all-Idle :
      (es : List Entry) (s t : System Db)
      → AreQuiet es
      → s.enabled ≡ false
      → enter_all key env es s ≡ done t
      → (t.enabled ≡ false)
        × (delivered t.trace ≡ delivered s.trace)
        × (key.elements t.db ≡ key.elements s.db)
  enter_all-Idle es s t quiet off ends =
      let (off', same) =
        Ends-done (Idle s) (enter_all key env es s) t (all-Idle es s quiet off) ends in
      (off', (λ i. (same i).sent), (λ i. (same i).waiting))
