-- ===== src/Amqp/Effects.antt =====
-- What the calls of amqp_connection.c change in the module's state, and which messages they bring
-- to the broker.
use redis_keyspace_amqp.Base.{ℕ, suc, ◌≡◌, refl, ◌∙◌, Option, none, some, ap, Bytes, c_str, arith}
use redis_keyspace_amqp.Memory.{AmqpBytes}
use redis_keyspace_amqp.System.{
  Status, ok, timeout, connection_closed, other, Props, AmqpCall, Call, Env, body_of, System, snoc,
  delivered, visible,
}
use redis_keyspace_amqp.Amqp.Wait.{wait_loop-keeps}
use redis_keyspace_amqp.Amqp.{
  amqp_wait_frame, amqp_disconnect, on_conn, connect_new, amqp_connect, amqp_publish, publish_after,
  publish_at, connect_at, disconnect_at,
}

-- `x` where the broker took a message.
abbrev pub if_ok : Status → Bytes → Option Bytes
if_ok ok x = some x
if_ok _ x = none

module _ {Db : Type 0} where
  -- All that is not the connection is as it was, the message of `m`, if any, was delivered, and
  -- nobody but the broker saw a call.
  pub record Sends (m : Option Bytes) (s s' : System Db) : Type 0 where
    pub config : s'.config ≡ s.config
    pub timer_id : s'.timer_id ≡ s.timer_id
    pub enabled : s'.enabled ≡ s.enabled
    pub storage_key : s'.storage_key ≡ s.storage_key
    pub storage_len : s'.storage_len ≡ s.storage_len
    pub db : s'.db ≡ s.db
    pub sent : delivered s'.trace ≡ snoc (delivered s.trace) m
    pub visible_same : visible s'.trace ≡ visible s.trace

  abbrev pub Quiet : System Db → System Db → Type 0
  Quiet s s' = Sends none s s'

  pub Quiet-then : {s t u : System Db} (m : Option Bytes) → Quiet s t → Sends m t u → Sends m s u
  Quiet-then m p q = record {
    config = q.config ∙ p.config;
    timer_id = q.timer_id ∙ p.timer_id;
    enabled = q.enabled ∙ p.enabled;
    storage_key = q.storage_key ∙ p.storage_key;
    storage_len = q.storage_len ∙ p.storage_len;
    db = q.db ∙ p.db;
    sent = q.sent ∙ ap (λ ds. snoc ds m) p.sent;
    visible_same = q.visible_same ∙ p.visible_same;
  }

  on_conn-Quiet :
      (c : AmqpCall) (s t : System Db)
      → body_of (Call.amqp t.conn c) ≡ none
      → Quiet s t
      → Quiet s (on_conn c t)
  unfolding delivered visible
  on_conn-Quiet c s t e q = record {
    config = q.config;
    timer_id = q.timer_id;
    enabled = q.enabled;
    storage_key = q.storage_key;
    storage_len = q.storage_len;
    db = q.db;
    sent = ap (snoc (delivered t.trace)) e ∙ q.sent;
    visible_same = q.visible_same;
  }

  pub amqp_wait_frame-Quiet : (env : Env) (s : System Db) → Quiet s (amqp_wait_frame env s).1
  unfolding amqp_wait_frame
  amqp_wait_frame-Quiet env s =
      let i = env.incoming s.trace in
      let same : Quiet s s = ground arith in
      wait_loop-keeps (Quiet s) (λ t q. on_conn-Quiet _ s t refl q)
        (λ m ch t q. on_conn-Quiet _ s t refl q) (suc i.rounds) i.replies s s same same

  disconnect_at-Quiet : (c : Option ℕ) (s : System Db) → Quiet s (disconnect_at c s).1
  unfolding delivered visible
  disconnect_at-Quiet none s = ground arith
  disconnect_at-Quiet (some h) s = ground arith

  pub amqp_disconnect-Quiet : (s : System Db) → Quiet s (amqp_disconnect s).1
  unfolding amqp_disconnect
  amqp_disconnect-Quiet s = disconnect_at-Quiet s.conn s

  module _ (env : Env) where
    connect_new-Quiet :
        (hostname : Bytes) (port : ℕ) (username password : Bytes) (heartbeat : ℕ) (s : System Db)
        → Quiet s (connect_new env hostname port username password heartbeat s).1
    unfolding connect_new delivered visible
    connect_new-Quiet hostname port username password heartbeat s = ground arith

    connect_at-Quiet :
        (c : Option ℕ) (hostname : Bytes) (port : ℕ) (username password : Bytes) (heartbeat : ℕ)
        (s : System Db)
        → Quiet s (connect_at c env hostname port username password heartbeat s).1
    connect_at-Quiet none hostname port username password heartbeat s =
        connect_new-Quiet hostname port username password heartbeat s
    connect_at-Quiet (some h) hostname port username password heartbeat s = ground arith

    -- `amqpConnect` changes the connection alone, and delivers no message.
    pub amqp_connect-Quiet :
        (hostname : Bytes) (port : ℕ) (username password : Bytes) (heartbeat : ℕ) (s : System Db)
        → Quiet s (amqp_connect env hostname port username password heartbeat s).1
    unfolding amqp_connect
    amqp_connect-Quiet hostname port username password heartbeat s =
        connect_at-Quiet s.conn hostname port username password heartbeat s

    module _ (exchange routing_key : AmqpBytes) (props : Props) (body : Bytes) where
      abbrev pub Published : System Db → Status × System Db → Type 0
      Published s r = Sends (if_ok r.0 (c_str body)) s r.1

      publish_after-Sends :
          (st : Status) (s : System Db)
          → Published s (publish_after st env exchange routing_key props body s)
      unfolding delivered visible
      publish_after-Sends ok s = ground arith
      publish_after-Sends timeout s = amqp_disconnect-Quiet s
      publish_after-Sends connection_closed s = amqp_disconnect-Quiet s
      publish_after-Sends (other n) s = amqp_disconnect-Quiet s

      publish_at-Sends :
          (c : Option ℕ) (s : System Db)
          → Published s (publish_at c env exchange routing_key props body s)
      publish_at-Sends none s = ground arith
      publish_at-Sends (some h) s =
          let (st, s1) = amqp_wait_frame env s in
          Quiet-then _ (amqp_wait_frame-Quiet env s) (publish_after-Sends st s1)

      -- `amqpPublish` changes the connection alone, and delivers its body, up to a NUL, exactly if
      -- it returns OK.
      pub amqp_publish-Sends :
          (s : System Db) → Published s (amqp_publish env exchange routing_key props body s)
      unfolding amqp_publish
      amqp_publish-Sends s = publish_at-Sends s.conn s
