-- ===== src/Command/Replies.antt =====
-- What a command lets others see (library.c, lines 319-373 and 410-461): replies to the client,
-- timers, and messages to the other nodes.
use redis_keyspace_amqp.Base.{
  ℕ, ◌≡◌, refl, ◌∙◌, ap, ap₂, Bool, true, false, List, [], ◌∷◌, ◌++◌, Option, none, some, Bytes,
  codes, ◌==◌, ltb, if◌then◌else◌, length, arith,
}
use redis_keyspace_amqp.System.{Call, Trace, Env, System, visible}
use redis_keyspace_amqp.Amqp.{redis_amqp_ok, amqp_disconnect, disconnect_at}
use redis_keyspace_amqp.Amqp.Effects.{amqp_connect-Quiet}
use redis_keyspace_amqp.Event.{connect_configured, start_timer, check_frame_interval}
use redis_keyspace_amqp.Command.{
  connect_reply, complain_if, stop_timer, disconnect_answered, connect_answered, disconnect_reply,
  disconnect_amqp_command, connect_error, disconnect_error,
}

abbrev pub disconnect_answer : Option ℕ → Call
disconnect_answer none = Call.reply_with_error (disconnect_error 1)
disconnect_answer (some h) = Call.reply_with_simple_string (codes "AMQP DISCONNECT OK")

module _ {Db : Type 0} where
  -- A timer that runs is stopped, and `argc > 1` is an error reply in front of the real one.
  abbrev pub disconnect_sees : List Bytes → System Db → Trace
  disconnect_sees argv s =
      (if s.timer_id == 0 then [] else Call.stop_timer s.timer_id ∷ [])
      ++ ((if ltb 1 (length argv) then Call.wrong_arity ∷ [] else []) ++ visible s.trace)

  stop_timer-visible :
      (s : System Db)
      → visible (stop_timer s).trace
        ≡ (if s.timer_id == 0 then [] else Call.stop_timer s.timer_id ∷ []) ++ visible s.trace
  unfolding stop_timer visible
  stop_timer-visible s = ground arith

  complain_if-visible :
      (bad : Bool) (s : System Db)
      → visible (complain_if bad s).trace
        ≡ (if bad then Call.wrong_arity ∷ [] else []) ++ visible s.trace
  unfolding visible
  complain_if-visible true s = refl
  complain_if-visible false s = refl

  answer_at-visible :
      (c : Option ℕ) (s : System Db)
      → visible (disconnect_answered (disconnect_at c s).0 (disconnect_at c s).1).1.trace
        ≡ disconnect_answer c ∷ visible s.trace
  unfolding visible
  answer_at-visible none s = ground arith
  answer_at-visible (some h) s = ground arith

  disconnect_reply-visible :
      (s : System Db)
      → visible (disconnect_reply s).1.trace ≡ disconnect_answer s.conn ∷ visible s.trace
  unfolding disconnect_reply amqp_disconnect
  disconnect_reply-visible s = answer_at-visible s.conn s

  complain_if-conn : (bad : Bool) (s : System Db) → (complain_if bad s).conn ≡ s.conn
  complain_if-conn true s = refl
  complain_if-conn false s = refl

  complain_if-timer_id : (bad : Bool) (s : System Db) → (complain_if bad s).timer_id ≡ s.timer_id
  complain_if-timer_id true s = refl
  complain_if-timer_id false s = refl

  stop_timer-conn : (s : System Db) → (stop_timer s).conn ≡ s.conn
  unfolding stop_timer
  stop_timer-conn s = ground arith

  -- `disconnect` replies with success if there was a connection, and with error 1 if not, after it
  -- has stopped the timer if one was set. With an argument the client gets a second reply, of an
  -- error, in front of that one.
  pub disconnect_amqp_command-visible :
      (argv : List Bytes) (s : System Db)
      → visible (disconnect_amqp_command argv s).1.trace
        ≡ disconnect_answer s.conn ∷ disconnect_sees argv s
  unfolding disconnect_amqp_command
  disconnect_amqp_command-visible argv s =
      let bad = ltb 1 (length argv) in
      let s1 = complain_if bad s in
      let s2 = record s1 { enabled = false } in
      disconnect_reply-visible (stop_timer s2)
      ∙ ap₂ (λ c t. disconnect_answer c ∷ t) (stop_timer-conn s2 ∙ complain_if-conn bad s)
          (stop_timer-visible s2
            ∙ ap₂ (λ n t. (if n == 0 then [] else Call.stop_timer n ∷ []) ++ t)
                (complain_if-timer_id bad s) (complain_if-visible bad s))

module _ {Db : Type 0} (env : Env) where
  started-visible :
      (code : ℕ) (s : System Db)
      → visible (connect_answered env code s).1.trace ≡ (
          if code == redis_amqp_ok
          then Call.reply_with_simple_string (codes "AMQP CONNECT OK")
            ∷ Call.create_timer check_frame_interval (env.create_timer s.trace)
            ∷ visible s.trace
          else Call.reply_with_error (connect_error code) ∷ visible s.trace)
  unfolding visible start_timer
  started-visible code s = ground arith

  -- A connect that succeeds starts a timer and stops none, whether or not a timer was set before,
  -- and replies with success. One that fails starts none and replies with its error code.
  pub connect_reply-visible :
      (s : System Db)
      → let (code, s1) = connect_configured env s in
        visible (connect_reply env s).1.trace ≡ (
          if code == redis_amqp_ok
          then Call.reply_with_simple_string (codes "AMQP CONNECT OK")
            ∷ Call.create_timer check_frame_interval (env.create_timer s1.trace)
            ∷ visible s.trace
          else Call.reply_with_error (connect_error code) ∷ visible s.trace)
  unfolding connect_reply connect_configured
  connect_reply-visible s =
      let q = amqp_connect-Quiet env _ _ _ _ _ s in
      let (code, s1) = connect_configured env s in
      started-visible code s1
      ∙ ap
          (λ t.
            if code == redis_amqp_ok
            then Call.reply_with_simple_string (codes "AMQP CONNECT OK")
              ∷ Call.create_timer check_frame_interval (env.create_timer s1.trace)
              ∷ t
            else Call.reply_with_error (connect_error code) ∷ t)
          q.visible_same
