-- ===== src/Event/Types.antt =====
-- The event handler and the timer's callback (library.c, lines 34-210) keep every number in its C
-- type.
use redis_keyspace_amqp.Base.{ℕ, inl, inr, not, Option, none, some, Bytes, Bool-cases, ◌==◌}
use redis_keyspace_amqp.System.{Status, ok, timeout, connection_closed, other, Env, System}
use redis_keyspace_amqp.Amqp.{redis_amqp_ok, amqp_disconnect, amqp_wait_frame}
use redis_keyspace_amqp.Amqp.Effects.{
  amqp_connect-Quiet, amqp_disconnect-Quiet, amqp_wait_frame-Quiet,
}
use redis_keyspace_amqp.Storage.{ListKey}
use redis_keyspace_amqp.Storage.Drain.{publish_stored_events-Drained}
use redis_keyspace_amqp.Config.Fits.{IsTyped}
use redis_keyspace_amqp.Event.{
  connect_configured, start_timer, ensure_timer, reconnect, after_wait, check_at,
  check_frames_and_heartbeat, on_keyspace_event,
}
use redis_keyspace_amqp.Event.Timer.{Ticks, Sends-Ticks, Ticks-then, same-Ticks, Ticks-IsTyped}
use redis_keyspace_amqp.Event.Beats.{Drained-Ticks, event-Ends}
use redis_keyspace_amqp.Reach.Plain.{Ends}

module _ {Db : Type 0} (env : Env) where
  pub connect_configured-Ticks : (s : System Db) → Ticks s (connect_configured env s).1
  unfolding connect_configured
  connect_configured-Ticks s = Sends-Ticks none s _ (amqp_connect-Quiet env _ _ _ _ _ s)

  disconnect-Ticks : (s : System Db) → Ticks s (amqp_disconnect s).1
  disconnect-Ticks s = Sends-Ticks none s _ (amqp_disconnect-Quiet s)

  start_timer-IsTyped : (s : System Db) → IsTyped s → IsTyped (start_timer env s)
  unfolding start_timer
  start_timer-IsTyped s typed = typed

  ensure_timer-IsTyped : (s : System Db) → IsTyped s → IsTyped (ensure_timer env s)
  unfolding ensure_timer
  ensure_timer-IsTyped s typed = elim (Bool-cases (s.timer_id == 0)) [
    | inl unset ↦
        rw unset (start_timer-IsTyped _ (Ticks-IsTyped s _ (connect_configured-Ticks s) typed))
    | inr set ↦ rw set typed
  ]

  module _ (key : ListKey Db) where
    pub event-IsTyped :
        (event key_name : Bytes) (s : System Db)
        → IsTyped s
        → Ends (λ (r : ℕ × System Db). IsTyped r.1) (on_keyspace_event key env event key_name s)
    event-IsTyped event key_name s typed =
        event-Ends env key IsTyped event key_name s
          (λ t k. Ticks-IsTyped (ensure_timer env s) t k (ensure_timer-IsTyped s typed)) typed

    reconnect-Ticks : (s : System Db) → Ticks s (reconnect key env s)
    unfolding reconnect
    reconnect-Ticks s =
        let (code, t) = connect_configured env s in
        let first = connect_configured-Ticks s in
        elim (Bool-cases (code == redis_amqp_ok)) [
          | inl up ↦ rw up (
              Ticks-then first
                (Drained-Ticks env key t _ (publish_stored_events-Drained key env t)))
          | inr down ↦ rw down (Ticks-then first (disconnect-Ticks t))
        ]

    retry-Ticks : (s : System Db) → Ticks s (reconnect key env (amqp_disconnect s).1)
    retry-Ticks s = Ticks-then (disconnect-Ticks s) (reconnect-Ticks (amqp_disconnect s).1)

    after_wait-Ticks : (st : Status) (s : System Db) → Ticks s (after_wait key env st s)
    after_wait-Ticks ok s = same-Ticks s
    after_wait-Ticks timeout s = retry-Ticks s
    after_wait-Ticks connection_closed s = retry-Ticks s
    after_wait-Ticks (other n) s = retry-Ticks s

    pub check_at-Ticks : (c : Option ℕ) (s : System Db) → Ticks s (check_at key env c s)
    check_at-Ticks none s = reconnect-Ticks s
    check_at-Ticks (some h) s =
        let (st, t) = amqp_wait_frame env s in
        Ticks-then (Sends-Ticks none s t (amqp_wait_frame-Quiet env s)) (after_wait-Ticks st t)

    pub check-IsTyped : (s : System Db) → IsTyped s → IsTyped (check_frames_and_heartbeat key env s)
    unfolding check_frames_and_heartbeat
    check-IsTyped s typed =
        let s1 = record s { timer_id = 0 } in
        elim (Bool-cases (not s.enabled)) [
          | inl off ↦ rw off typed
          | inr on ↦
              rw on (start_timer-IsTyped _ (Ticks-IsTyped s1 _ (check_at-Ticks s1.conn s1) typed))
        ]
