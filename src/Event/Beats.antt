-- ===== src/Event/Beats.antt =====
-- The event handler and the timer's callback (library.c, lines 112-210): when they leave a timer
-- pending.
use redis_keyspace_amqp.Base.{
  ℕ, ◌≡◌, refl, sym, ◌∙◌, ap, subst, ◌<◌, length, inl, inr, Bool, false, true, not, ◌&&◌, Option,
  none, some, Bytes, String, c_str, bytes_eq, arith, Bool-cases, ◌==◌, if◌then◌else◌,
}
use redis_keyspace_amqp.Memory.{u64_mod}
use redis_keyspace_amqp.StringArray.{get_length}
use redis_keyspace_amqp.System.{
  Status, ok, timeout, connection_closed, other, Call, Env, System, emit,
}
use redis_keyspace_amqp.Amqp.{amqp_publish}
use redis_keyspace_amqp.Amqp.Effects.{amqp_connect-Quiet, amqp_publish-Sends}
use redis_keyspace_amqp.Storage.{ListKey, size_lt_zero-eq_false, push_event_to_storage}
use redis_keyspace_amqp.Storage.Counter.{decrements-lt}
use redis_keyspace_amqp.Storage.Drain.{Drained, publish_stored_events-Drained}
use redis_keyspace_amqp.Event.{
  connect_configured, start_timer, ensure_timer, after_event, event_at, publish_event,
  check_frames_and_heartbeat, publish_selected, filter_event, mask_loop, key_mask_all,
  on_keyspace_event, is_redis_master,
}
use redis_keyspace_amqp.Event.Timer.{
  timers_of, IsPending, IsTimed, IsAlive, Ticks, Sends-Ticks, Ticks-then, same-Ticks, emit-Ticks,
  Ticks-IsPending, Ticks-IsAlive, start_timer-IsPending, visible-timers_of,
}
use redis_keyspace_amqp.Reach.Plain.{Ends, Ends-bind, Ends-any}

module _ {Db : Type 0} (env : Env) where
  -- The first event starts the timer, where none is set.
  ensure_timer-IsPending : (s : System Db) → IsTimed s → IsPending (ensure_timer env s)
  unfolding ensure_timer
  ensure_timer-IsPending s timed = elim (Bool-cases (s.timer_id == 0)) [
    | inl unset ↦ rw unset (start_timer-IsPending env (connect_configured env s).1)
    | inr set ↦ rw set (elim timed [ inl unset ↦ absurd (ground arith) | inr pending ↦ pending ])
  ]

  pub ensure_timer-enabled : (s : System Db) → (ensure_timer env s).enabled ≡ s.enabled
  unfolding ensure_timer connect_configured start_timer
  ensure_timer-enabled s = elim (Bool-cases (s.timer_id == 0)) [
    | inl unset ↦ rw unset ((amqp_connect-Quiet env _ _ _ _ _ s).enabled)
    | inr set ↦ rw set refl
  ]

  ensure_timer-IsAlive : (s : System Db) → IsAlive s → IsAlive (ensure_timer env s)
  unfolding ensure_timer
  ensure_timer-IsAlive s alive = elim (Bool-cases (s.timer_id == 0)) [
    | inl unset ↦ rw unset (inr (start_timer-IsPending env (connect_configured env s).1))
    | inr set ↦ rw set alive
  ]

  module _ (key : ListKey Db) where
    push-Ticks : (m : Bytes) (s : System Db) → Ticks s (push_event_to_storage key m s)
    unfolding push_event_to_storage
    push-Ticks m s =
        rw size_lt_zero-eq_false (record {
          enabled = refl;
          timer_id = refl;
          timers = refl;
          config = refl;
          counter = λ k. k;
        })

    refused-Ticks :
        (m : Bytes) (text : String) (s : System Db)
        → Ticks s (push_event_to_storage key m (emit (Call.log text) s))
    refused-Ticks m text s =
        let s1 = emit (Call.log text) s in
        Ticks-then {s = s} {t = s1} (emit-Ticks (Call.log text) s λ t. refl) (push-Ticks m s1)

    pub Drained-Ticks : (s : System Db) (r : ℕ × System Db) → Drained key env s r → Ticks s r.1
    Drained-Ticks s r d = record {
      enabled = d.enabled;
      timer_id = d.timer_id;
      timers =
          sym (visible-timers_of r.1.trace)
          ∙ ap timers_of d.visible_same
          ∙ visible-timers_of s.trace;
      config = d.config;
      counter = λ k.
          subst (λ n. n < u64_mod) (sym d.counted) (decrements-lt (length d.sent) s.storage_len k);
    }

    after_event-Ticks :
        (st : Status) (m : Bytes) (s : System Db) → Ticks s (after_event key env st m s)
    after_event-Ticks ok m s = Drained-Ticks s _ (publish_stored_events-Drained key env s)
    after_event-Ticks timeout m s = refused-Ticks m _ s
    after_event-Ticks connection_closed m s = refused-Ticks m _ s
    after_event-Ticks (other n) m s = refused-Ticks m _ s

    event_at-Ticks : (c : Option ℕ) (m : Bytes) (s : System Db) → Ticks s (event_at key env c m s)
    event_at-Ticks none m s = refused-Ticks m _ s
    event_at-Ticks (some h) m s =
        let (st, t) =
          amqp_publish env s.config.exchange s.config.routing_key s.config.publish_props m s in
        Ticks-then (Sends-Ticks _ s t (amqp_publish-Sends env _ _ _ m s)) (after_event-Ticks st m t)

    log-Ticks :
        (b : Bool) (x y : String) (s : System Db)
        → Ticks s (emit (if b then Call.log x else Call.log y) s)
    log-Ticks true x y s = emit-Ticks (Call.log x) s λ t. refl
    log-Ticks false x y s = emit-Ticks (Call.log y) s λ t. refl

    publish_selected-Ticks :
        (mask : Option Bytes) (event keyname : Bytes) (s : System Db)
        → Ticks s (publish_selected key env mask event keyname s)
    unfolding publish_event
    publish_selected-Ticks none event keyname s = same-Ticks s
    publish_selected-Ticks (some mask) event keyname s =
        Ticks-then (log-Ticks (bytes_eq mask key_mask_all) _ _ s) (event_at-Ticks s.conn _ _)

    filter_event-Ticks :
        (event key_name : Bytes) (s : System Db)
        → Ends (Ticks s) (filter_event key env event key_name s)
    unfolding filter_event
    filter_event-Ticks event key_name s =
        Ends-bind (λ mask. Unit) _
          (mask_loop (get_length s.config.key_masks) 0 s.config.key_masks (c_str key_name)) _
          (Ends-any _ _ λ mask. tt) λ mask u. publish_selected-Ticks mask event (c_str key_name) s

    -- A relation between the state behind `ensure_timer` and the end of an event.
    pub event-Ends :
        (P : System Db → Type 0) (event key_name : Bytes) (s : System Db)
        → ((t : System Db) → Ticks (ensure_timer env s) t → P t)
        → P s
        → Ends (λ (r : ℕ × System Db). P r.1) (on_keyspace_event key env event key_name s)
    unfolding on_keyspace_event
    event-Ends P event key_name s ticked same =
        elim (Bool-cases (is_redis_master env s && s.enabled)) [
          | inl on ↦ rw on (
              Ends-bind (Ticks (ensure_timer env s)) _
                (filter_event key env event key_name (ensure_timer env s)) _
                (filter_event-Ticks event key_name (ensure_timer env s)) ticked)
          | inr off ↦ rw off same
        ]

    pub event-IsTimed :
        (event key_name : Bytes) (s : System Db)
        → IsTimed s
        → Ends (λ (r : ℕ × System Db). IsTimed r.1) (on_keyspace_event key env event key_name s)
    event-IsTimed event key_name s timed =
        event-Ends IsTimed event key_name s
          (λ t k. inr (Ticks-IsPending (ensure_timer env s) t k (ensure_timer-IsPending s timed)))
          timed

    pub event-IsAlive :
        (event key_name : Bytes) (s : System Db)
        → IsAlive s
        → Ends (λ (r : ℕ × System Db). IsAlive r.1) (on_keyspace_event key env event key_name s)
    event-IsAlive event key_name s alive =
        event-Ends IsAlive event key_name s
          (λ t k. Ticks-IsAlive (ensure_timer env s) t k (ensure_timer-IsAlive s alive)) alive

    -- An event that a master with forwarding enabled handles leaves a timer pending.
    pub event-wakes :
        (event key_name : Bytes) (s : System Db)
        → IsTimed s
        → (is_redis_master env s && s.enabled) ≡ true
        → Ends (λ (r : ℕ × System Db). IsPending r.1) (on_keyspace_event key env event key_name s)
    unfolding on_keyspace_event
    event-wakes event key_name s timed on =
        let t = ensure_timer env s in
        rw on (
          Ends-bind (Ticks t) _ (filter_event key env event key_name t) _
            (filter_event-Ticks event key_name t)
            λ u k. Ticks-IsPending t u k (ensure_timer-IsPending s timed))

    -- The callback leaves a timer pending, or forwarding is off, whatever was before.
    pub check-IsAlive : (s : System Db) → IsAlive (check_frames_and_heartbeat key env s)
    unfolding check_frames_and_heartbeat
    check-IsAlive s = elim (Bool-cases (not s.enabled)) [
      | inl off ↦ rw off (inl (ground arith))
      | inr on ↦ rw on (inr (start_timer-IsPending env _))
    ]

    pub check-IsTimed : (s : System Db) → IsTimed (check_frames_and_heartbeat key env s)
    unfolding check_frames_and_heartbeat
    check-IsTimed s = elim (Bool-cases (not s.enabled)) [
      | inl off ↦ rw off (inl refl)
      | inr on ↦ rw on (inr (start_timer-IsPending env _))
    ]

    pub check-IsPending :
        (s : System Db) → s.enabled ≡ true → IsPending (check_frames_and_heartbeat key env s)
    unfolding check_frames_and_heartbeat
    check-IsPending s on = elim (Bool-cases (not s.enabled)) [
      | inl off ↦ absurd (ground arith)
      | inr still_on ↦ rw still_on (start_timer-IsPending env _)
    ]
