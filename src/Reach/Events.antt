-- ===== src/Reach/Events.antt =====
-- The storage, the events and the timer (library.c, lines 34-210) keep to one live connection.
use redis_keyspace_amqp.Base.{
  ℕ, zero, suc, ◌≡◌, refl, not, ◌&&◌, ◌+◌, Option, none, some, Bytes, bytes_eq, c_str, String, ◌==◌,
  Bool-cases, inl, inr,
}
use redis_keyspace_amqp.System.{
  Status, ok, timeout, connection_closed, other, Call, Env, System, emit,
}
use redis_keyspace_amqp.Amqp.{redis_amqp_ok}
use redis_keyspace_amqp.Amqp.Handles.{
  NeverNull, IsOwned, amqp_connect-IsOwned, amqp_publish-IsOwned, amqp_disconnect-IsOwned,
  amqp_wait_frame-IsOwned,
}
use redis_keyspace_amqp.Storage.{
  ListKey, size_lt_zero-eq_false, after_publish, after_pop, publish_message, publish_loop,
  publish_stored_events, push_event_to_storage,
}
use redis_keyspace_amqp.StringArray.{get_length}
use redis_keyspace_amqp.Event.{
  connect_configured, start_timer, ensure_timer, after_event, event_at, publish_event, reconnect,
  after_wait, check_at, check_frames_and_heartbeat, publish_selected, filter_event,
  on_keyspace_event, mask_loop, is_redis_master, key_mask_all, check_frame_interval,
}
use redis_keyspace_amqp.Reach.Plain.{Ends, Ends-bind, Ends-any, emit-IsOwned}

module _ {Db : Type 0} (env : Env) (never : NeverNull env) where
  pub connect_configured-IsOwned :
      (s : System Db) → IsOwned s → IsOwned (connect_configured env s).1
  unfolding connect_configured
  connect_configured-IsOwned s o = amqp_connect-IsOwned env _ _ _ _ _ s never o

  pub start_timer-IsOwned : (s : System Db) → IsOwned s → IsOwned (start_timer env s)
  unfolding start_timer
  start_timer-IsOwned s o =
      let id = env.create_timer s.trace in
      emit-IsOwned (Call.create_timer check_frame_interval id) (record s { timer_id = id }) tt o

  ensure_timer-IsOwned : (s : System Db) → IsOwned s → IsOwned (ensure_timer env s)
  unfolding ensure_timer
  ensure_timer-IsOwned s o = elim (Bool-cases (s.timer_id == 0)) [
    | inl idle ↦ rw idle (start_timer-IsOwned _ (connect_configured-IsOwned s o))
    | inr set ↦ rw set o
  ]

  module _ (key : ListKey Db) where
    abbrev Keeps : (System Db → ℕ × System Db) → Type 0
    Keeps next = (t : System Db) → IsOwned t → IsOwned (next t).1

    after_publish-IsOwned :
        (st : Status) (message : Bytes) (s : System Db) (next : System Db → ℕ × System Db)
        → Keeps next
        → IsOwned s
        → IsOwned (after_publish key env st message s next).1
    after_publish-IsOwned ok message s next k o = k _ o
    after_publish-IsOwned timeout message s next k o = o
    after_publish-IsOwned connection_closed message s next k o = o
    after_publish-IsOwned (other n) message s next k o = o

    after_pop-IsOwned :
        (popped : Option Bytes) (s : System Db) (next : System Db → ℕ × System Db)
        → Keeps next
        → IsOwned s
        → IsOwned (after_pop key env popped s next).1
    after_pop-IsOwned none s next k o = o
    after_pop-IsOwned (some message) s next k o =
        let (st, s') = publish_message key env message s in
        after_publish-IsOwned st message s' next k (amqp_publish-IsOwned env _ _ _ message s o)

    publish_loop-IsOwned : (fuel : ℕ) → Keeps (publish_loop key env fuel)
    unfolding publish_loop
    publish_loop-IsOwned zero s o = o
    publish_loop-IsOwned (suc fuel) s o =
        after_pop-IsOwned (key.list_pop_head s.db).0 _ _ (publish_loop-IsOwned fuel) o

    publish_stored_events-IsOwned : Keeps (publish_stored_events key env)
    unfolding publish_stored_events
    publish_stored_events-IsOwned s o =
        rw size_lt_zero-eq_false (publish_loop-IsOwned (key.value_length s.db + 1) s o)

    push-IsOwned :
        (message : Bytes) (s : System Db)
        → IsOwned s
        → IsOwned (push_event_to_storage key message s)
    unfolding push_event_to_storage
    push-IsOwned message s o = rw size_lt_zero-eq_false o

    refused-IsOwned :
        (message : Bytes) (text : String) (s : System Db)
        → IsOwned s
        → IsOwned (push_event_to_storage key message (emit (Call.log text) s))
    refused-IsOwned message text s o = push-IsOwned message _ (emit-IsOwned (Call.log text) s tt o)

    after_event-IsOwned :
        (st : Status) (message : Bytes) (s : System Db)
        → IsOwned s
        → IsOwned (after_event key env st message s)
    after_event-IsOwned ok message s o = publish_stored_events-IsOwned s o
    after_event-IsOwned timeout message s o = refused-IsOwned message _ s o
    after_event-IsOwned connection_closed message s o = refused-IsOwned message _ s o
    after_event-IsOwned (other n) message s o = refused-IsOwned message _ s o

    event_at-IsOwned :
        (c : Option ℕ) (message : Bytes) (s : System Db)
        → IsOwned s
        → IsOwned (event_at key env c message s)
    event_at-IsOwned none message s o = refused-IsOwned message _ s o
    event_at-IsOwned (some h) message s o =
        after_event-IsOwned _ message _ (amqp_publish-IsOwned env _ _ _ message s o)

    publish_event-IsOwned :
        (event keyname : Bytes) (s : System Db)
        → IsOwned s
        → IsOwned (publish_event key env event keyname s)
    unfolding publish_event
    publish_event-IsOwned event keyname s o = event_at-IsOwned s.conn _ s o

    publish_selected-IsOwned :
        (selected : Option Bytes) (event keyname : Bytes) (s : System Db)
        → IsOwned s
        → IsOwned (publish_selected key env selected event keyname s)
    publish_selected-IsOwned none event keyname s o = o
    publish_selected-IsOwned (some mask) event keyname s o =
        elim (Bool-cases (bytes_eq mask key_mask_all)) [
          | inl all ↦
              rw all (publish_event-IsOwned event keyname _ (emit-IsOwned (Call.log _) s tt o))
          | inr one ↦
              rw one (publish_event-IsOwned event keyname _ (emit-IsOwned (Call.log _) s tt o))
        ]

    filter_event-IsOwned :
        (event key_name : Bytes) (s : System Db)
        → IsOwned s
        → Ends IsOwned (filter_event key env event key_name s)
    unfolding filter_event
    filter_event-IsOwned event key_name s o =
        Ends-bind (λ selected. Unit) IsOwned
          (mask_loop (get_length s.config.key_masks) 0 s.config.key_masks (c_str key_name)) _
          (Ends-any _ _ λ x. tt)
          λ selected u. publish_selected-IsOwned selected event (c_str key_name) s o

    pub on_keyspace_event-IsOwned :
        (event key_name : Bytes) (s : System Db)
        → IsOwned s
        → Ends (λ (r : ℕ × System Db). IsOwned r.1) (on_keyspace_event key env event key_name s)
    unfolding on_keyspace_event
    on_keyspace_event-IsOwned event key_name s o =
        elim (Bool-cases (is_redis_master env s && s.enabled)) [
          | inl on ↦ rw on (
              Ends-bind IsOwned _ (filter_event key env event key_name (ensure_timer env s)) _
                (filter_event-IsOwned event key_name _ (ensure_timer-IsOwned s o)) λ t k. k)
          | inr off ↦ rw off o
        ]

    reconnect-IsOwned : (s : System Db) → IsOwned s → IsOwned (reconnect key env s)
    unfolding reconnect
    reconnect-IsOwned s o =
        let c = connect_configured-IsOwned s o in
        elim (Bool-cases ((connect_configured env s).0 == redis_amqp_ok)) [
          | inl up ↦ rw up (publish_stored_events-IsOwned _ c)
          | inr down ↦ rw down (amqp_disconnect-IsOwned _ c)
        ]

    after_wait-IsOwned :
        (st : Status) (s : System Db) → IsOwned s → IsOwned (after_wait key env st s)
    after_wait-IsOwned ok s o = o
    after_wait-IsOwned timeout s o = reconnect-IsOwned _ (amqp_disconnect-IsOwned s o)
    after_wait-IsOwned connection_closed s o = reconnect-IsOwned _ (amqp_disconnect-IsOwned s o)
    after_wait-IsOwned (other n) s o = reconnect-IsOwned _ (amqp_disconnect-IsOwned s o)

    check_at-IsOwned :
        (c : Option ℕ) (s : System Db) → s.conn ≡ c → IsOwned s → IsOwned (check_at key env c s)
    check_at-IsOwned none s e o = reconnect-IsOwned s o
    check_at-IsOwned (some h) s e o =
        after_wait-IsOwned _ _ (amqp_wait_frame-IsOwned env s (λ n. cc) o)

    pub check_frames_and_heartbeat-IsOwned :
        (s : System Db) → IsOwned s → IsOwned (check_frames_and_heartbeat key env s)
    unfolding check_frames_and_heartbeat
    check_frames_and_heartbeat-IsOwned s o = elim (Bool-cases (not s.enabled)) [
      | inl off ↦ rw off o
      | inr on ↦
          rw on (start_timer-IsOwned _ (check_at-IsOwned s.conn (record s { timer_id = 0 }) refl o))
    ]
