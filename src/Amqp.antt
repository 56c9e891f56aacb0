-- ===== src/Amqp.antt =====
-- amqp_connection.c: the connection to the broker.
pub mod Wait
pub mod Effects
pub mod Handles
pub mod Healthy
use redis_keyspace_amqp.Base.{
  ℕ, zero, suc, Bool, true, false, Option, none, some, Bytes, c_str, ◌==◌, if◌then◌else◌, String,
}
use redis_keyspace_amqp.Memory.{AmqpBytes}
use redis_keyspace_amqp.System.{
  Status, ok, timeout, connection_closed, Frame, closing, wait_ends, Incoming, Props, AmqpCall,
  Call, Env, System, emit,
}

-- amqp_connection.h, lines 13-19
abbrev pub redis_amqp_ok : ℕ
redis_amqp_ok = 0

abbrev pub redis_amqp_err : ℕ
redis_amqp_err = 1

abbrev pub redis_amqp_socket_err : ℕ
redis_amqp_socket_err = 2

abbrev pub redis_amqp_connection_err : ℕ
redis_amqp_connection_err = 3

abbrev pub redis_amqp_auth_err : ℕ
redis_amqp_auth_err = 4

abbrev pub redis_amqp_channel_err : ℕ
redis_amqp_channel_err = 5

abbrev pub redis_amqp_already_connected : ℕ
redis_amqp_already_connected = 6

-- line 30
unfoldable pub wait_result : Status → Status
wait_result timeout = ok
wait_result st = st

module _ {Db : Type 0} where
  abbrev pub on_conn : AmqpCall → System Db → System Db
  on_conn c s = emit (Call.amqp s.conn c) s

  -- Fuel counts the rounds. With none left there is no result: the code goes on.
  unfoldable pub wait_loop : ℕ → (ℕ → Status × Frame) → System Db → Option (Status × System Db)
  wait_loop zero replies s = none
  wait_loop (suc fuel) replies s =
      let s' = on_conn AmqpCall.wait_frame_noblock s in
      let again = wait_loop fuel (λ i. replies (suc i)) s' in
      let (st, f) = replies 0 in
      elim (closing f) [
        | some (m, ch) ↦ some (connection_closed, on_conn (AmqpCall.send_method m ch) s')
        | none ↦ if wait_ends st f then some (wait_result st, s') else again
      ]

  -- The loop's result, which Wait shows to be there; the last clause is not reached.
  abbrev pub wait_value : Option (Status × System Db) → System Db → Status × System Db
  wait_value (some r) s = r
  wait_value none s = (ok, s)

  unfoldable pub amqp_wait_frame : Env → System Db → Status × System Db
  unfolding wait_loop closing wait_ends wait_result
  amqp_wait_frame env s =
      let i = env.incoming s.trace in wait_value (wait_loop (suc i.rounds) i.replies s) s

  -- lines 38-45, on a connection
  abbrev pub close_handle : System Db → System Db
  close_handle s =
      let s1 = on_conn AmqpCall.channel_close s in
      let s2 = on_conn AmqpCall.connection_close s1 in
      let s3 = on_conn AmqpCall.destroy_connection s2 in
      emit (Call.log "AMQP DISCONNECTED") (record s3 { conn = none })

  abbrev pub disconnect_at : Option ℕ → System Db → ℕ × System Db
  disconnect_at none s = (redis_amqp_err, s)
  disconnect_at (some h) s = (redis_amqp_ok, close_handle s)

  unfoldable pub amqp_disconnect : System Db → ℕ × System Db
  amqp_disconnect s = disconnect_at s.conn s

  -- lines 74-83
  unfoldable pub open_channel : Env → System Db → ℕ × System Db
  unfolding amqp_disconnect
  open_channel env s =
      let s1 = on_conn AmqpCall.channel_open s in
      let s2 = on_conn AmqpCall.get_rpc_reply s1 in
      if env.rpc_reply s1.trace
      then (redis_amqp_ok, emit (Call.log "AMQP CONNECTED") s2)
      else (redis_amqp_channel_err, (amqp_disconnect s2).1)

  -- lines 66-72
  unfoldable pub log_in : Env → Bytes → Bytes → ℕ → System Db → ℕ × System Db
  unfolding open_channel amqp_disconnect
  log_in env username password heartbeat s =
      let s1 = on_conn (AmqpCall.login heartbeat username password) s in
      if env.login s.trace
      then open_channel env s1
      else (redis_amqp_auth_err, (amqp_disconnect s1).1)

  -- lines 60-64
  unfoldable pub open_socket : Env → Bytes → ℕ → Bytes → Bytes → ℕ → System Db → ℕ × System Db
  unfolding log_in amqp_disconnect
  open_socket env hostname port username password heartbeat s =
      let s1 = on_conn (AmqpCall.socket_open hostname port) s in
      if env.socket_open s.trace == 0
      then log_in env username password heartbeat s1
      else (redis_amqp_connection_err, (amqp_disconnect s1).1)

  -- lines 54-58
  unfoldable pub connect_new : Env → Bytes → ℕ → Bytes → Bytes → ℕ → System Db → ℕ × System Db
  unfolding open_socket
  connect_new env hostname port username password heartbeat s =
      let h = env.new_connection s.trace in
      let s1 = emit (Call.new_connection h) (record s { conn = h }) in
      let s2 = on_conn AmqpCall.tcp_socket_new s1 in
      if env.tcp_socket_new s1.trace
      then open_socket env hostname port username password heartbeat s2
      else (redis_amqp_socket_err, s2)

  abbrev pub connect_at : Option ℕ → Env → Bytes → ℕ → Bytes → Bytes → ℕ → System Db → ℕ × System Db
  connect_at none env hostname port username password heartbeat s =
      connect_new env hostname port username password heartbeat s
  connect_at (some h) env hostname port username password heartbeat s =
      (redis_amqp_already_connected, s)

  unfoldable pub amqp_connect : Env → Bytes → ℕ → Bytes → Bytes → ℕ → System Db → ℕ × System Db
  unfolding connect_new
  amqp_connect env hostname port username password heartbeat s =
      connect_at s.conn env hostname port username password heartbeat s

  -- lines 93-94, or lines 90-91 if the wait was not answered with `ok`
  abbrev pub publish_after :
      Status → Env → AmqpBytes → AmqpBytes → Props → Bytes → System Db → Status × System Db
  publish_after ok env exchange routing_key props body s =
      let st = env.basic_publish s.trace in
      (st, on_conn (AmqpCall.basic_publish exchange routing_key props (c_str body) st) s)
  publish_after _ env exchange routing_key props body s = (connection_closed, (amqp_disconnect s).1)

  abbrev pub publish_at :
      Option ℕ → Env → AmqpBytes → AmqpBytes → Props → Bytes → System Db → Status × System Db
  publish_at none env exchange routing_key props body s = (connection_closed, s)
  publish_at (some h) env exchange routing_key props body s =
      let (st, s1) = amqp_wait_frame env s in
      publish_after st env exchange routing_key props body s1

  unfoldable pub amqp_publish :
      Env → AmqpBytes → AmqpBytes → Props → Bytes → System Db → Status × System Db
  unfolding amqp_wait_frame amqp_disconnect c_str
  amqp_publish env exchange routing_key props body s =
      publish_at s.conn env exchange routing_key props body s
