-- ===== src/Reach/Config.antt =====
-- The events and the timer (library.c, lines 34-210) leave the configuration as it is.
use redis_keyspace_amqp.Base.{
  ℕ, ◌≡◌, refl, ◌∙◌, not, ◌&&◌, Option, none, some, Bytes, c_str, ◌==◌, Bool-cases, inl, inr,
  length, and-eq_true,
}
use redis_keyspace_amqp.Memory.{done}
use redis_keyspace_amqp.System.{Status, ok, timeout, connection_closed, other, Env, System}
use redis_keyspace_amqp.Amqp.{redis_amqp_ok}
use redis_keyspace_amqp.Amqp.Effects.{
  amqp_connect-Quiet, amqp_disconnect-Quiet, amqp_wait_frame-Quiet, amqp_publish-Sends,
}
use redis_keyspace_amqp.Storage.{
  ListKey, redismodule_ok, size_lt_zero-eq_false, push_event_to_storage,
}
use redis_keyspace_amqp.Storage.Drain.{publish_stored_events-Drained}
use redis_keyspace_amqp.Event.{
  connect_configured, start_timer, ensure_timer, after_event, event_at, publish_event, reconnect,
  after_wait, check_at, check_frames_and_heartbeat, publish_selected, on_keyspace_event,
  is_redis_master,
}
use redis_keyspace_amqp.Command.{connect_reply}
use redis_keyspace_amqp.Event.Filter.{
  ensure_timer-keeps, filtered, find, on_keyspace_event-find, on_keyspace_event-off,
}

module _ {Db : Type 0} (env : Env) where
  connect_configured-config : (s : System Db) → (connect_configured env s).1.config ≡ s.config
  unfolding connect_configured
  connect_configured-config s = (amqp_connect-Quiet env _ _ _ _ _ s).config

  start_timer-config : (s : System Db) → (start_timer env s).config ≡ s.config
  unfolding start_timer
  start_timer-config s = refl

  pub connect_reply-config : (s : System Db) → (connect_reply env s).1.config ≡ s.config
  unfolding connect_reply
  connect_reply-config s =
      let (code, t) = connect_configured env s in
      elim (Bool-cases (code == redis_amqp_ok)) [
        | inl good ↦ rw good (start_timer-config t ∙ connect_configured-config s)
        | inr bad ↦ rw bad (connect_configured-config s)
      ]

  module _ (key : ListKey Db) where
    push-config : (m : Bytes) (s : System Db) → (push_event_to_storage key m s).config ≡ s.config
    unfolding push_event_to_storage
    push-config m s = rw size_lt_zero-eq_false refl

    after_event-config :
        (st : Status) (m : Bytes) (s : System Db) → (after_event key env st m s).config ≡ s.config
    after_event-config ok m s = (publish_stored_events-Drained key env s).config
    after_event-config timeout m s = push-config m _
    after_event-config connection_closed m s = push-config m _
    after_event-config (other n) m s = push-config m _

    event_at-config :
        (c : Option ℕ) (m : Bytes) (s : System Db) → (event_at key env c m s).config ≡ s.config
    event_at-config none m s = push-config m _
    event_at-config (some h) m s =
        after_event-config _ m _ ∙ (amqp_publish-Sends env _ _ _ m s).config

    publish_selected-config :
        (mask : Option Bytes) (event keyname : Bytes) (s : System Db)
        → (publish_selected key env mask event keyname s).config ≡ s.config
    unfolding publish_event
    publish_selected-config none event keyname s = refl
    publish_selected-config (some mask) event keyname s = event_at-config s.conn _ _

    -- A keyspace event ends, and changes no setting, where the array of masks is counted.
    pub on_keyspace_event-config :
        (event key_name : Bytes) (s : System Db)
        → s.config.key_masks.size ≡ length s.config.key_masks.cells
        → (t : System Db) × (on_keyspace_event key env event key_name s ≡ done (redismodule_ok, t))
          × (t.config ≡ s.config)
    on_keyspace_event-config event key_name s counted =
        elim (Bool-cases (is_redis_master env s && s.enabled)) [
          | inl on ↦
              let (master, enabled) = and-eq_true (is_redis_master env s) s.enabled on in
              let t = ensure_timer env s in
              (
                filtered key env event key_name s.config.key_masks.cells t,
                on_keyspace_event-find key env event key_name s counted master enabled,
                publish_selected-config (find (c_str key_name) s.config.key_masks.cells) event
                      (c_str key_name) t
                    ∙ (ensure_timer-keeps env s).0,
              )
          | inr off ↦ (s, on_keyspace_event-off key env event key_name s off, refl)
        ]

    reconnect-config : (s : System Db) → (reconnect key env s).config ≡ s.config
    unfolding reconnect
    reconnect-config s =
        let (code, t) = connect_configured env s in
        elim (Bool-cases (code == redis_amqp_ok)) [
          | inl up ↦
              rw up ((publish_stored_events-Drained key env t).config ∙ connect_configured-config s)
          | inr down ↦ rw down ((amqp_disconnect-Quiet t).config ∙ connect_configured-config s)
        ]

    after_wait-config : (st : Status) (s : System Db) → (after_wait key env st s).config ≡ s.config
    after_wait-config ok s = refl
    after_wait-config timeout s = reconnect-config _ ∙ (amqp_disconnect-Quiet s).config
    after_wait-config connection_closed s = reconnect-config _ ∙ (amqp_disconnect-Quiet s).config
    after_wait-config (other n) s = reconnect-config _ ∙ (amqp_disconnect-Quiet s).config

    check_at-config : (c : Option ℕ) (s : System Db) → (check_at key env c s).config ≡ s.config
    check_at-config none s = reconnect-config s
    check_at-config (some h) s = after_wait-config _ _ ∙ (amqp_wait_frame-Quiet env s).config

    pub check_frames_and_heartbeat-config :
        (s : System Db) → (check_frames_and_heartbeat key env s).config ≡ s.config
    unfolding check_frames_and_heartbeat
    check_frames_and_heartbeat-config s = elim (Bool-cases (not s.enabled)) [
      | inl off ↦ rw off refl
      | inr on ↦ rw on (start_timer-config _ ∙ check_at-config s.conn (record s { timer_id = 0 }))
    ]
