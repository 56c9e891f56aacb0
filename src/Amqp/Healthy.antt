-- ===== src/Amqp/Healthy.antt =====
-- The connection to a broker that answers (amqp_connection.c, lines 9-95): every call succeeds.
use redis_keyspace_amqp.Base.{ℕ, ◌≡◌, refl, true, Option, none, some, Bytes, arith}
use redis_keyspace_amqp.Memory.{AmqpBytes}
use redis_keyspace_amqp.System.{
  ok, timeout, empty, closing, wait_ends, Props, Call, AmqpCall, Trace, Env, System, emit,
}
use redis_keyspace_amqp.Amqp.{
  redis_amqp_ok, wait_result, wait_loop, amqp_wait_frame, publish_at, amqp_publish, on_conn,
  open_channel, log_in, open_socket, connect_new, amqp_connect,
}

-- A connection can be opened, the credentials are right, no frame is waiting, and every message is
-- taken.
pub record Healthy (env : Env) : Type 0 where
  pub opens : (t : Trace) → (h : ℕ) × (env.new_connection t ≡ some h)
  pub socket : (t : Trace) → env.tcp_socket_new t ≡ true
  pub connects : (t : Trace) → env.socket_open t ≡ 0
  pub accepts : (t : Trace) → env.login t ≡ true
  pub channel : (t : Trace) → env.rpc_reply t ≡ true
  pub silent : (t : Trace) → (env.incoming t).replies 0 ≡ (timeout, empty)
  pub takes : (t : Trace) → env.basic_publish t ≡ ok

module _ {Db : Type 0} where
  abbrev pub IsUp : System Db → Type 0
  IsUp s = (h : ℕ) × (s.conn ≡ some h)

  -- The answer of a call, and that a connection is there after it.
  abbrev pub Good : {A : Type 0} → A → A × System Db → Type 0
  Good a r = (r.0 ≡ a) × IsUp r.1

  pub down_is_not_up : (s : System Db) → s.conn ≡ none → ¬ IsUp s
  down_is_not_up s e (h, up) = cc

module _ {Db : Type 0} (env : Env) (healthy : Healthy env) where
  amqp_wait_frame-silent :
      (s : System Db) → amqp_wait_frame env s ≡ (ok, on_conn AmqpCall.wait_frame_noblock s)
  unfolding amqp_wait_frame wait_loop closing wait_ends wait_result
  amqp_wait_frame-silent s = let e = healthy.silent s.trace in ground arith

  publish_at-Good :
      (exchange routing_key : AmqpBytes) (props : Props) (m : Bytes) (c : Option ℕ) (s : System Db)
      → s.conn ≡ c
      → IsUp s
      → Good ok (publish_at c env exchange routing_key props m s)
  publish_at-Good exchange routing_key props m none s e up = absurd (down_is_not_up s e up)
  publish_at-Good exchange routing_key props m (some h) s e up =
      rw (amqp_wait_frame-silent s) (healthy.takes _, up)

  pub amqp_publish-Good :
      (exchange routing_key : AmqpBytes) (props : Props) (m : Bytes) (s : System Db)
      → IsUp s
      → Good ok (amqp_publish env exchange routing_key props m s)
  unfolding amqp_publish
  amqp_publish-Good exchange routing_key props m s up =
      publish_at-Good exchange routing_key props m s.conn s refl up

  open_channel-Good : (s : System Db) → IsUp s → Good redis_amqp_ok (open_channel env s)
  unfolding open_channel
  open_channel-Good s up = rw (healthy.channel (on_conn AmqpCall.channel_open s).trace) (refl, up)

  module _ (hostname : Bytes) (port : ℕ) (username password : Bytes) (heartbeat : ℕ) where
    connect_new-Good :
        (s : System Db)
        → Good redis_amqp_ok (connect_new env hostname port username password heartbeat s)
    unfolding connect_new open_socket log_in
    connect_new-Good s =
        let s1 = record s { conn = env.new_connection s.trace } in
        let s2 = emit (Call.new_connection s1.conn) s1 in
        let s3 = on_conn AmqpCall.tcp_socket_new s2 in
        let s4 = on_conn (AmqpCall.socket_open hostname port) s3 in
        let s5 = on_conn (AmqpCall.login heartbeat username password) s4 in
        rw (healthy.socket s2.trace) (
          rw (healthy.connects s3.trace)
            (rw (healthy.accepts s4.trace) (open_channel-Good s5 (healthy.opens s.trace))))

    pub amqp_connect-Good :
        (s : System Db)
        → s.conn ≡ none
        → Good redis_amqp_ok (amqp_connect env hostname port username password heartbeat s)
    unfolding amqp_connect
    amqp_connect-Good s down = rw down (connect_new-Good s)
