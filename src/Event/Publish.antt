-- ===== src/Event/Publish.antt =====
-- `publishEvent` (library.c, lines 112-131): every event reaches the broker or the storage.
use redis_keyspace_amqp.Base.{
  ℕ, ◌≡◌, sym, ◌∙◌, ap, List, [], ◌∷◌, ◌++◌, map, Option, none, some, Bytes, c_str, if◌then◌else◌,
  arith, ltb, leb, ◌&&◌, String,
}
use redis_keyspace_amqp.System.{
  Status, ok, timeout, connection_closed, other, Call, Env, System, emit, delivered, visible,
}
use redis_keyspace_amqp.Amqp.{amqp_publish}
use redis_keyspace_amqp.Amqp.Effects.{Sends, Quiet, Quiet-then, if_ok, amqp_publish-Sends}
use redis_keyspace_amqp.Storage.{ListKey, is_full, push_event_to_storage}
use redis_keyspace_amqp.Storage.Drain.{Drained, publish_stored_events-Drained}
use redis_keyspace_amqp.Storage.Push.{tail, push-append}
use redis_keyspace_amqp.Event.{message_string, after_event, event_at, publish_event}

module _ {Db : Type 0} (key : ListKey Db) (env : Env) where
  -- Where a message went: to the broker, and after it a run from the head of the storage; or to
  -- the end of the storage, which gives up its oldest message if the counter says that it is full.
  pub data Accounted (message : Bytes) (s s' : System Db) : Type 0 where
    sent :
        (run left : List Bytes)
        → key.elements s.db ≡ run ++ left
        → key.elements s'.db ≡ left
        → delivered s'.trace ≡ (delivered s.trace ++ c_str message ∷ []) ++ map c_str run
        → Accounted message s s'
    kept :
        delivered s'.trace ≡ delivered s.trace
        → key.elements s'.db
          ≡ (if is_full key s then tail (key.elements s.db) else key.elements s.db) ++ message ∷ []
        → Accounted message s s'

  sent-Accounted :
      {message : Bytes} {s s1 s2 : System Db} {r : ℕ}
      → Sends (some (c_str message)) s s1
      → Drained key env s1 (r, s2)
      → Accounted message s s2
  sent-Accounted e d =
      sent d.sent d.left (ap key.elements (sym e.db) ∙ d.splits) d.kept
        (d.published ∙ ap (λ ds. ds ++ map c_str d.sent) e.sent)

  push_delivered :
      (message : Bytes) (s : System Db)
      → delivered (push_event_to_storage key message s).trace ≡ delivered s.trace
  unfolding push_event_to_storage
  push_delivered message s = ground arith

  kept-Accounted :
      (message : Bytes) {s s1 : System Db}
      → Sends none s s1
      → Accounted message s (push_event_to_storage key message s1)
  kept-Accounted message {s} {s1} e = kept (push_delivered message s1 ∙ e.sent) (
      (push-append key message s1).0 ∙ λ i.
      (if ltb 0 (e.config i).max_size && leb (e.config i).max_size (e.storage_len i)
        then tail (key.elements (e.db i))
        else key.elements (e.db i))
      ++ message ∷ [])

  log-Quiet : (s : System Db) (text : String) → Quiet s (emit (Call.log text) s)
  unfolding delivered visible
  log-Quiet s text = ground arith

  after_event-Accounted :
      (st : Status) (message : Bytes) {s s1 : System Db}
      → Sends (if_ok st (c_str message)) s s1
      → Accounted message s (after_event key env st message s1)
  after_event-Accounted ok message {s} {s1} e =
      sent-Accounted e (publish_stored_events-Drained key env s1)
  after_event-Accounted timeout message {s} {s1} e =
      kept-Accounted message (Quiet-then none e (log-Quiet s1 _))
  after_event-Accounted connection_closed message {s} {s1} e =
      kept-Accounted message (Quiet-then none e (log-Quiet s1 _))
  after_event-Accounted (other n) message {s} {s1} e =
      kept-Accounted message (Quiet-then none e (log-Quiet s1 _))

  event_at-Accounted :
      (c : Option ℕ) (message : Bytes) (s : System Db)
      → Accounted message s (event_at key env c message s)
  event_at-Accounted none message s = kept-Accounted message (log-Quiet s _)
  event_at-Accounted (some h) message s =
      let p =
        amqp_publish env s.config.exchange s.config.routing_key s.config.publish_props message s in
      after_event-Accounted p.0 message (
        amqp_publish-Sends env s.config.exchange s.config.routing_key s.config.publish_props message
          s)

  -- Whatever the connection does, a published event is accounted for: it is delivered, and after
  -- it a run of stored messages from the oldest on, or it is appended to the storage, which drops
  -- its oldest message only if the counter has reached the limit. No other message is lost,
  -- reordered in the storage or delivered twice.
  pub publish_event-Accounted :
      (event keyname : Bytes) (s : System Db)
      → Accounted
          (message_string (env.selected_db s.trace) event keyname)
          s
          (publish_event key env event keyname s)
  unfolding publish_event
  publish_event-Accounted event keyname s =
      event_at-Accounted s.conn (message_string (env.selected_db s.trace) event keyname) s
