-- ===== src/Amqp/Handles.antt =====
-- The connection handle of amqp_connection.c: created when there is none, used while it is live,
-- destroyed once.
use redis_keyspace_amqp.Base.{
  ℕ, suc, ◌≡◌, ◌≢◌, refl, sym, ◌∙◌, ap, Option, none, some, [], ◌∷◌, Bytes, ◌==◌, if◌then◌else◌,
  arith,
}
use redis_keyspace_amqp.Memory.{AmqpBytes}
use redis_keyspace_amqp.System.{
  Status, ok, timeout, connection_closed, other, Props, AmqpCall, Call, Trace, Env, System,
}
use redis_keyspace_amqp.Amqp.Wait.{wait_loop-keeps}
use redis_keyspace_amqp.Amqp.{
  amqp_wait_frame, amqp_disconnect, disconnect_at, connect_new, connect_at, amqp_connect,
  publish_after, publish_at, amqp_publish,
}

-- The live handle after a call, from the one before it; `none` if the call breaks the discipline:
-- a second connection while one is live, or a call on a handle that is not the live one.
abbrev pub amqp_step : AmqpCall → ℕ → ℕ → Option (Option ℕ)
amqp_step AmqpCall.destroy_connection h live = if h == live then some none else none
amqp_step _ h live = if h == live then some (some live) else none

abbrev pub own_step : Call → Option ℕ → Option (Option ℕ)
own_step (Call.new_connection h) none = some h
own_step (Call.new_connection h) (some live) = none
own_step (Call.amqp (some h) c) (some live) = amqp_step c h live
own_step (Call.amqp _ c) _ = none
own_step _ live = some live

abbrev pub own_after : Option (Option ℕ) → Call → Option (Option ℕ)
own_after none c = none
own_after (some live) c = own_step c live

unfoldable pub owner : Trace → Option (Option ℕ)
owner [] = some none
owner (c ∷ t) = own_after (owner t) c

-- What the code relies on, and does not test: `amqp_new_connection` returns no NULL.
abbrev pub NeverNull : Env → Type 0
NeverNull env = (t : Trace) → (h : ℕ) × (env.new_connection t ≡ some h)

module _ {Db : Type 0} where
  -- No call so far has broken the discipline, and `conn` is the live handle.
  abbrev pub IsOwned : System Db → Type 0
  IsOwned s = owner s.trace ≡ some s.conn

  -- `conn` is `some h` and owned.
  abbrev Holds : ℕ → System Db → Type 0
  Holds h s = (s.conn ≡ some h) × (owner s.trace ≡ some (some h))

  amqp_wait_frame-Holds :
      (env : Env) (h : ℕ) (s : System Db) → Holds h s → Holds h (amqp_wait_frame env s).1
  unfolding amqp_wait_frame owner
  amqp_wait_frame-Holds env h s o =
      let i = env.incoming s.trace in
      wait_loop-keeps (Holds h) (λ t k. ground arith) (λ m ch t k. ground arith) (suc i.rounds)
        i.replies s s o o

  disconnect_at-IsOwned :
      (c : Option ℕ) (s : System Db) → s.conn ≡ c → IsOwned s → IsOwned (disconnect_at c s).1
  unfolding owner
  disconnect_at-IsOwned none s e o = o
  disconnect_at-IsOwned (some h) s e o = ground arith

  pub amqp_disconnect-IsOwned : (s : System Db) → IsOwned s → IsOwned (amqp_disconnect s).1
  unfolding amqp_disconnect
  amqp_disconnect-IsOwned s o = disconnect_at-IsOwned s.conn s refl o

  module _ (env : Env) where
    connect_new-IsOwned :
        (hostname : Bytes) (port : ℕ) (username password : Bytes) (heartbeat : ℕ) (s : System Db)
        (h : ℕ)
        → env.new_connection s.trace ≡ some h
        → owner s.trace ≡ some none
        → IsOwned (connect_new env hostname port username password heartbeat s).1
    unfolding connect_new owner
    connect_new-IsOwned hostname port username password heartbeat s h e o = ground arith

    connect_at-IsOwned :
        (c : Option ℕ) (hostname : Bytes) (port : ℕ) (username password : Bytes) (heartbeat : ℕ)
        (s : System Db)
        → NeverNull env
        → s.conn ≡ c
        → IsOwned s
        → IsOwned (connect_at c env hostname port username password heartbeat s).1
    connect_at-IsOwned none hostname port username password heartbeat s never e o =
        let (h, new) = never s.trace in
        connect_new-IsOwned hostname port username password heartbeat s h new (rw e at o)
    connect_at-IsOwned (some h) hostname port username password heartbeat s never e o = o

    -- `amqpConnect` opens no second connection beside a live one, and leaves `conn` the live
    -- handle, or NULL where it destroyed it, on success and on each of its errors.
    pub amqp_connect-IsOwned :
        (hostname : Bytes) (port : ℕ) (username password : Bytes) (heartbeat : ℕ) (s : System Db)
        → NeverNull env
        → IsOwned s
        → IsOwned (amqp_connect env hostname port username password heartbeat s).1
    unfolding amqp_connect
    amqp_connect-IsOwned hostname port username password heartbeat s never o =
        connect_at-IsOwned s.conn hostname port username password heartbeat s never refl o

    module _ (exchange routing_key : AmqpBytes) (props : Props) (body : Bytes) where
      publish_after-IsOwned :
          (st : Status) (h : ℕ) (s : System Db)
          → Holds h s
          → IsOwned (publish_after st env exchange routing_key props body s).1
      unfolding owner
      publish_after-IsOwned ok h s o = ground arith
      publish_after-IsOwned timeout h s o = amqp_disconnect-IsOwned s (ground arith)
      publish_after-IsOwned connection_closed h s o = amqp_disconnect-IsOwned s (ground arith)
      publish_after-IsOwned (other n) h s o = amqp_disconnect-IsOwned s (ground arith)

      publish_at-IsOwned :
          (c : Option ℕ) (s : System Db)
          → s.conn ≡ c
          → IsOwned s
          → IsOwned (publish_at c env exchange routing_key props body s).1
      publish_at-IsOwned none s e o = o
      publish_at-IsOwned (some h) s e o =
          let (st, s1) = amqp_wait_frame env s in
          publish_after-IsOwned st h s1 (amqp_wait_frame-Holds env h s (e, rw e at o))

      -- `amqpPublish` uses the live handle alone, destroys it at most once, and leaves `conn` the
      -- live handle, or NULL where it destroyed it.
      pub amqp_publish-IsOwned :
          (s : System Db)
          → IsOwned s
          → IsOwned (amqp_publish env exchange routing_key props body s).1
      unfolding amqp_publish
      amqp_publish-IsOwned s o = publish_at-IsOwned s.conn s refl o

    wait_at-IsOwned :
        (c : Option ℕ) (s : System Db)
        → s.conn ≡ c
        → c ≢ none
        → IsOwned s
        → IsOwned (amqp_wait_frame env s).1
    wait_at-IsOwned none s e n o = absurd (n refl)
    wait_at-IsOwned (some h) s e n o =
        let m = amqp_wait_frame-Holds env h s (e, rw e at o) in m.1 ∙ ap some (sym m.0)

    pub amqp_wait_frame-IsOwned :
        (s : System Db) → s.conn ≢ none → IsOwned s → IsOwned (amqp_wait_frame env s).1
    amqp_wait_frame-IsOwned s n o = wait_at-IsOwned s.conn s refl n o
