-- ===== src/Reach/Paced.antt =====
-- Every entry point (library.c, lines 133-210, 319-373 and 410-506): the timers that it starts.
use redis_keyspace_amqp.Base.{ℕ, ◌+◌, ◌∙◌, not, ◌==◌, Bool-cases, inl, inr, ==_iff, arith}
use redis_keyspace_amqp.System.{Env, System}
use redis_keyspace_amqp.Storage.{ListKey}
use redis_keyspace_amqp.Event.{
  connect_configured, ensure_timer, check_at, check_frames_and_heartbeat, on_keyspace_event,
}
use redis_keyspace_amqp.Event.Pace.{
  IsPaced, Ticks-IsPaced, start_timer-IsPaced, unkept-MayStart, forgotten-MayStart,
}
use redis_keyspace_amqp.Event.Beats.{event-Ends}
use redis_keyspace_amqp.Event.Types.{connect_configured-Ticks, check_at-Ticks}
use redis_keyspace_amqp.Cluster.{cluster_message_receiver}
use redis_keyspace_amqp.Command.Answers.{Answers}
use redis_keyspace_amqp.Reach.{
  Entry, keyspace_event, timer, connect, disconnect, config_set, storage_size_set, keymask_clean,
  keymask_add, keymask_set, cluster_message, enter, Reaches, here, step,
}
use redis_keyspace_amqp.Reach.Plain.{Ends, Ends-bind, Ends-map, Ends-done}
use redis_keyspace_amqp.Reach.Answers.{IsCommand, owed, enter-Answers}
use redis_keyspace_amqp.Reach.Effects.{Talks, receiver-Talks}

-- A timer that fires is over.
abbrev pub fires : Entry → ℕ
fires timer = 1
fires _ = 0

module _ {Db : Type 0} (key : ListKey Db) (env : Env) where
  ensure_timer-IsPaced :
      (fired : ℕ) (s : System Db) → IsPaced fired s → IsPaced fired (ensure_timer env s)
  unfolding ensure_timer
  ensure_timer-IsPaced fired s paced = elim (Bool-cases (s.timer_id == 0)) [
    | inl unset ↦ rw unset (
        let k = connect_configured-Ticks env s in
        let t = (connect_configured env s).1 in
        start_timer-IsPaced env fired t (
          unkept-MayStart fired t (k.timer_id ∙ (==_iff s.timer_id 0).0 unset)
            (Ticks-IsPaced fired s t k paced)))
    | inr set ↦ rw set paced
  ]

  check-IsPaced :
      (fired : ℕ) (s : System Db)
      → IsPaced fired s
      → IsPaced (fired + 1) (check_frames_and_heartbeat key env s)
  unfolding check_frames_and_heartbeat
  check-IsPaced fired s paced =
      let s1 = record s { timer_id = 0 } in
      let t = check_at key env s1.conn s1 in
      let k = check_at-Ticks env key s1.conn s1 in
      let first : IsPaced (fired + 1) s1 = omega (arith, forgotten-MayStart fired s paced) in
      elim (Bool-cases (not s.enabled)) [
        | inl off ↦ rw off first
        | inr on ↦ rw on (
            start_timer-IsPaced env (fired + 1) t
              (unkept-MayStart (fired + 1) t k.timer_id (Ticks-IsPaced (fired + 1) s1 t k first)))
      ]

  command-IsPaced :
      (e : Entry) (fired : ℕ) (s : System Db)
      → IsCommand e
      → IsPaced fired s
      → Ends (IsPaced (fired + 0)) (enter key env e s)
  command-IsPaced e fired s c paced =
      Ends-map (Answers (owed e) s) (IsPaced (fired + 0)) (enter key env e s)
        (enter-Answers key env e s c) λ t a. omega (arith, a.paced fired paced)

  enter-IsPaced :
      (e : Entry) (fired : ℕ) (s : System Db)
      → IsPaced fired s
      → Ends (IsPaced (fired + fires e)) (enter key env e s)
  unfolding enter
  enter-IsPaced (keyspace_event event key_name) fired s paced =
      Ends-bind (λ (r : ℕ × System Db). IsPaced fired r.1) (IsPaced (fired + 0))
        (on_keyspace_event key env event key_name s) _
        (event-Ends env key (IsPaced fired) event key_name s
          (λ t k. Ticks-IsPaced fired (ensure_timer env s) t k (ensure_timer-IsPaced fired s paced))
          paced)
        λ r k. omega (arith, k)
  enter-IsPaced timer fired s paced = check-IsPaced fired s paced
  enter-IsPaced (cluster_message type payload beyond) fired s paced =
      Ends-map (Talks s) (IsPaced (fired + 0))
        (cluster_message_receiver key env type payload beyond s)
        (receiver-Talks key env type payload beyond s)
        λ t (n, a). omega (arith, a.paced fired paced)
  enter-IsPaced (connect argv) fired s paced = command-IsPaced (connect argv) fired s tt paced
  enter-IsPaced (disconnect argv) fired s paced = command-IsPaced (disconnect argv) fired s tt paced
  enter-IsPaced (config_set argv) fired s paced = command-IsPaced (config_set argv) fired s tt paced
  enter-IsPaced (storage_size_set argv) fired s paced =
      command-IsPaced (storage_size_set argv) fired s tt paced
  enter-IsPaced (keymask_clean argv) fired s paced =
      command-IsPaced (keymask_clean argv) fired s tt paced
  enter-IsPaced (keymask_add argv) fired s paced =
      command-IsPaced (keymask_add argv) fired s tt paced
  enter-IsPaced (keymask_set argv) fired s paced =
      command-IsPaced (keymask_set argv) fired s tt paced

  unfoldable pub callbacks : {s t : System Db} → Reaches key env s t → ℕ
  callbacks here = 0
  callbacks (step e ends rest) = fires e + callbacks rest

  pub Reaches-IsPaced :
      (fired : ℕ) {s t : System Db}
      → IsPaced fired s
      → (run : Reaches key env s t) → IsPaced (fired + callbacks run) t
  unfolding callbacks
  Reaches-IsPaced fired paced here = omega (arith, paced)
  Reaches-IsPaced fired {s} paced (step {s1 = s1} e ends rest) =
      let next : IsPaced (fired + fires e) s1 =
        Ends-done (IsPaced (fired + fires e)) (enter key env e s) s1 (enter-IsPaced e fired s paced)
          ends in
      let last = Reaches-IsPaced (fired + fires e) next rest in omega (arith, last)
