-- ===== src/Reach/Answers.antt =====
-- Every command of a client (library.c, lines 410-461) and every message of the bus (lines 463-506):
-- the replies that are sent, and what is left alone.
use redis_keyspace_amqp.Base.{
  ℕ, ◌+◌, ◌≡◌, refl, subst, Bool, true, false, List, Bytes, length, ltb, ◌==◌, if◌then◌else◌, arith,
}
use redis_keyspace_amqp.Memory.{Outcome, done, ◌>>=◌}
use redis_keyspace_amqp.System.{Env, System, delivered}
use redis_keyspace_amqp.Storage.{ListKey}
use redis_keyspace_amqp.Config.{keymask_clean_command, keymask_add_command}
use redis_keyspace_amqp.Command.{
  broadcast_redis_command, complain_if, amqp_connect_redis_command, amqp_disconnect_redis_command,
  setup_config_redis_command, setup_fallback_storage_size_redis_command,
  keymask_clean_redis_command, keymask_add_redis_command, keymask_set_redis_command,
}
use redis_keyspace_amqp.Command.Answers.{
  replies, Answers, Answers-then, complain_if-Answers, disconnect_amqp_command-Answers,
}
use redis_keyspace_amqp.Command.Runs.{
  Answered, setup_config-Answers, size_command-Answers, keymask_clean-Answers, keymask_add-Answers,
  broadcast-Answers, connect_amqp_command-Answers,
}
use redis_keyspace_amqp.Cluster.{state_of}
use redis_keyspace_amqp.Reach.{
  Entry, keyspace_event, timer, connect, disconnect, config_set, storage_size_set, keymask_clean,
  keymask_add, keymask_set, cluster_message, enter,
}
use redis_keyspace_amqp.Reach.Plain.{Ends, Ends-bind, Ends-map, Ends-done}

abbrev one_if : Bool → ℕ
one_if b = if b then 1 else 0

-- The replies that a client gets for a command, by the number of its words.
abbrev pub owed : Entry → ℕ
owed (connect argv) = 1
owed (disconnect argv) = if ltb 1 (length argv) then 2 else 1
owed (config_set argv) = if ltb (length argv) 2 then 1 else 0
owed (storage_size_set argv) = if length argv == 2 then 0 else 1
owed (keymask_clean argv) = if ltb 1 (length argv) then 1 else 0
owed (keymask_add argv) = if ltb (length argv) 2 then 1 else 0
owed (keymask_set argv) = if ltb (length argv) 2 then 1 else 0
owed _ = 0

abbrev pub IsCommand : Entry → Type 0
IsCommand (keyspace_event event key_name) = ⊥
IsCommand timer = ⊥
IsCommand (cluster_message type payload beyond) = ⊥
IsCommand _ = Unit

module _ {Db : Type 0} where
  Answers-count : {m : ℕ} (n : ℕ) (s t : System Db) → m ≡ n → Answers m s t → Answers n s t
  Answers-count n s t e a = subst (λ k. Answers k s t) e a

module _ {Db : Type 0} (key : ListKey Db) (env : Env) where
  state_of-Answers :
      (n : ℕ) (s : System Db) (o : Outcome (ℕ × System Db))
      → Ends (Answered n s) o
      → Ends (Answers n s) (state_of o)
  state_of-Answers n s o e = Ends-bind (Answered n s) (Answers n s) o _ e λ x k. k

  -- A command of a client: its complaint, its broadcast, and what it does.
  run-Answers :
      (bad : Bool) (n total : ℕ) (argv : List Bytes) (s : System Db)
      (f : System Db → Outcome (ℕ × System Db))
      → one_if bad + n ≡ total
      → ((t : System Db) → Ends (Answered n t) (f t))
      → Ends
          (Answers total s)
          (state_of (broadcast_redis_command env argv (complain_if bad s) >>= f))
  run-Answers bad n total argv s f sum k =
      let s1 = complain_if bad s in
      state_of-Answers total s _ (
        Ends-bind (Answers 0 s1) _ (broadcast_redis_command env argv s1) f
          (broadcast-Answers env argv s1)
          λ t a. Ends-map (Answered n t) (Answered total s) (f t) (k t) λ r b.
            Answers-count total s r.1 (omega (arith, sum))
              (Answers-then (complain_if-Answers bad s) (Answers-then a b)))

  alone : (bad : Bool) → one_if bad + 0 ≡ one_if bad
  alone bad = omega arith

  disconnect-owed : (bad : Bool) → 0 + (one_if bad + 1) ≡ (if bad then 2 else 1)
  disconnect-owed true = refl
  disconnect-owed false = refl

  size-owed : (b : Bool) → one_if (if b then false else true) + 0 ≡ (if b then 0 else 1)
  size-owed true = refl
  size-owed false = refl

  -- A command that ends delivers, stores and drops no event, and sends the replies that are owed.
  pub enter-Answers :
      (e : Entry) (s : System Db) → IsCommand e → Ends (Answers (owed e) s) (enter key env e s)
  unfolding enter amqp_connect_redis_command amqp_disconnect_redis_command
      setup_config_redis_command setup_fallback_storage_size_redis_command
      keymask_clean_redis_command keymask_add_redis_command keymask_set_redis_command
  enter-Answers (keyspace_event event key_name) s c = absurd c
  enter-Answers timer s c = absurd c
  enter-Answers (cluster_message type payload beyond) s c = absurd c
  enter-Answers (connect argv) s c =
      run-Answers false 1 1 argv s _ refl λ t. connect_amqp_command-Answers env key argv t
  enter-Answers (disconnect argv) s c =
      let bad = ltb 1 (length argv) in
      run-Answers false _ _ argv s _ (disconnect-owed bad)
        λ t. disconnect_amqp_command-Answers argv t
  enter-Answers (config_set argv) s c =
      run-Answers _ 0 _ argv s _ (alone (ltb (length argv) 2))
        λ t. setup_config-Answers key env argv 1 t
  enter-Answers (storage_size_set argv) s c =
      run-Answers _ 0 _ argv s _ (size-owed (length argv == 2)) λ t. size_command-Answers key argv t
  enter-Answers (keymask_clean argv) s c =
      run-Answers _ 0 _ argv s _ (alone (ltb 1 (length argv))) λ t. keymask_clean-Answers t
  enter-Answers (keymask_add argv) s c =
      run-Answers _ 0 _ argv s _ (alone (ltb (length argv) 2)) λ t. keymask_add-Answers env argv t
  enter-Answers (keymask_set argv) s c =
      run-Answers _ 0 _ argv s _ (alone (ltb (length argv) 2)) λ t.
        let t1 = (keymask_clean_command t).1 in
        Ends-bind (Answered 0 t1) _ (keymask_add_command env argv t1) _
          (keymask_add-Answers env argv t1) λ r a. Answers-then (keymask_clean-Answers t) a

  -- A command that runs to its end sends the replies that are owed, and delivers, stores and drops
  -- no event: `connect` sends one, `disconnect` one, or two if it has an argument, and the other
  -- five none, or one if their number of words is wrong.
  pub enter-replies :
      (e : Entry) (s t : System Db)
      → IsCommand e
      → enter key env e s ≡ done t
      → (replies t.trace ≡ replies s.trace + owed e)
        × (t.db ≡ s.db)
        × (delivered t.trace ≡ delivered s.trace)
  enter-replies e s t c end =
      let a = Ends-done (Answers (owed e) s) (enter key env e s) t (enter-Answers e s c) end in
      (a.replied, a.db, a.sent)
