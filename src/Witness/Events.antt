-- ===== src/Witness/Events.antt =====
-- The connection, the storage, the events and the commands on a concrete server.
use redis_keyspace_amqp.Base.{
  ℕ, ◌≤◌, ◌<◌, ◌↔◌, c_str, false, map, ◌≡◌, refl, ap, true, List, [], ◌∷◌, ◌++◌, none, some, Bytes,
  codes, arith, ◌==◌, if◌then◌else◌,
}
use redis_keyspace_amqp.Memory.{done}
use redis_keyspace_amqp.System.{Status, ok, method, Call, System, visible}
use redis_keyspace_amqp.Amqp.Wait.{EndsWait, wait_loop-decided}
use redis_keyspace_amqp.Amqp.{amqp_publish, amqp_wait_frame, amqp_disconnect, wait_loop}
use redis_keyspace_amqp.Amqp.Effects.{Published, amqp_publish-Sends}
use redis_keyspace_amqp.Amqp.Handles.{IsOwned, owner}
use redis_keyspace_amqp.Storage.{publish_stored_events, redismodule_ok}
use redis_keyspace_amqp.Storage.Drain.{Drained, publish_stored_events-Drained}
use redis_keyspace_amqp.Storage.Push.{push_all, push_all-append}
use redis_keyspace_amqp.Storage.Counter.{drain-then-full}
use redis_keyspace_amqp.Event.{
  message_string, publish_event, on_keyspace_event, check_frames_and_heartbeat, is_redis_master,
  ensure_timer, check_frame_interval, connect_configured,
}
use redis_keyspace_amqp.Event.Publish.{Accounted, publish_event-Accounted}
use redis_keyspace_amqp.Amqp.Healthy.{Healthy}
use redis_keyspace_amqp.Event.Timer.{IsPending}
use redis_keyspace_amqp.Event.Recovery.{Emptied}
use redis_keyspace_amqp.Event.Replica.{replica-drains}
use redis_keyspace_amqp.Event.Selection.{Handled, on_keyspace_event-Handled}
use redis_keyspace_amqp.Event.Filter.{filtered, on_keyspace_event-find}
use redis_keyspace_amqp.Command.{connect_reply, connect_error}
use redis_keyspace_amqp.Command.Replies.{connect_reply-visible}
use redis_keyspace_amqp.Cluster.{state_of}
use redis_keyspace_amqp.Reach.{keyspace_event, timer, here, step, enter}
use redis_keyspace_amqp.Reach.Owned.{Reaches-IsOwned}
use redis_keyspace_amqp.Samples.{replica, outage, list_key, up, down, masks, config, server}

publish_event-Accounted_example :
    Accounted list_key up
      (message_string 3 (codes "expired") (codes "user:7"))
      (server (some 1))
      (publish_event list_key up (codes "expired") (codes "user:7") (server (some 1)))
publish_event-Accounted_example =
    publish_event-Accounted list_key up (codes "expired") (codes "user:7") (server (some 1))

publish_stored_events-Drained_example :
    Drained list_key down (server (some 1)) (publish_stored_events list_key down (server (some 1)))
publish_stored_events-Drained_example =
    publish_stored_events-Drained list_key down (server (some 1))

drains : (publish_stored_events list_key up (server (some 1))).0 ≡ redismodule_ok
unfolding publish_stored_events amqp_publish amqp_wait_frame wait_loop amqp_disconnect
drains = refl

drain-then-full_example :
    let after = (publish_stored_events list_key up (server (some 1))).1 in
    (after.db ≡ [])
    × ((push_all list_key (codes "a" ∷ codes "b" ∷ codes "c" ∷ []) after).db ≡ codes "c" ∷ [])
drain-then-full_example =
    drain-then-full list_key up (server (some 1)) drains (codes "a") (codes "b" ∷ codes "c" ∷ [])
      (omega arith) (omega arith) (omega arith) (omega arith)

is_master : is_redis_master up (server none) ≡ true
unfolding is_redis_master
is_master = refl

on_keyspace_event-Handled_example :
    (t : System (List Bytes)) × (on_keyspace_event list_key up
        (codes "expired")
        (codes "user:7")
        (server none)
      ≡ done (redismodule_ok, t))
    × Handled list_key up (codes "expired") (codes "user:7") (server none) t
on_keyspace_event-Handled_example =
    on_keyspace_event-Handled list_key up (codes "expired") (codes "user:7") (server none) refl
      is_master refl

fresh-IsOwned : IsOwned (server none)
unfolding owner
fresh-IsOwned = refl

Reaches-IsOwned_example : IsOwned (
    check_frames_and_heartbeat list_key up (
      filtered list_key up
        (codes "expired")
        (codes "user:7")
        masks.cells
        (ensure_timer up (server none))))
unfolding enter
Reaches-IsOwned_example =
    Reaches-IsOwned list_key up (λ t. (1, refl)) fresh-IsOwned
      (step (keyspace_event (codes "expired") (codes "user:7"))
        (ap state_of (
          on_keyspace_event-find list_key up (codes "expired") (codes "user:7") (server none) refl
            is_master refl))
        (step timer refl here))

amqp_publish-Sends_example :
    Published up config.exchange config.routing_key config.publish_props
      (codes "m")
      (server (some 1))
      (amqp_publish up config.exchange config.routing_key config.publish_props
        (codes "m")
        (server (some 1)))
amqp_publish-Sends_example =
    amqp_publish-Sends up config.exchange config.routing_key config.publish_props (codes "m")
      (server (some 1))

push_all-append_example :
    ((push_all list_key outage (server none)).db ≡ (server none).db ++ outage)
    × ((push_all list_key outage (server none)).storage_len ≡ 1)
push_all-append_example = push_all-append list_key outage (server none) refl

abbrev counted_full : System (List Bytes)
counted_full = record (server none) { storage_len = 5; db = codes "old" ∷ [] }

connect_reply-visible_example :
    let (code, s1) = connect_configured up (server none) in
    visible (connect_reply up (server none)).1.trace ≡ (
      if code == 0
      then Call.reply_with_simple_string (codes "AMQP CONNECT OK")
        ∷ Call.create_timer check_frame_interval (up.create_timer s1.trace)
        ∷ visible []
      else Call.reply_with_error (connect_error code) ∷ visible [])
connect_reply-visible_example = connect_reply-visible up (server none)

is_replica : is_redis_master replica (server none) ≡ false
unfolding is_redis_master
is_replica = refl

replica-Healthy : Healthy replica
replica-Healthy = record {
  opens = λ t. (1, refl);
  socket = λ t. refl;
  connects = λ t. refl;
  accepts = λ t. refl;
  channel = λ t. refl;
  silent = λ t. refl;
  takes = λ t. refl;
}

replica-drains_example :
    let t = check_frames_and_heartbeat list_key replica (server none) in
    (on_keyspace_event list_key replica (codes "set") (codes "user:7") (server none)
      ≡ done (redismodule_ok, server none))
    × Emptied list_key (map c_str (server none).db) (server none) t
    × IsPending t
replica-drains_example =
    replica-drains list_key replica replica-Healthy (codes "set") (codes "user:7") (server none)
      is_replica refl refl

wait_loop-decided_example :
    ((wait_loop 2 (λ i. (ok, method)) (server (some 1)) ≡ none)
      ↔ ((i : ℕ) → i < 2 → ¬ EndsWait ok method))
    × ((more : ℕ) (r : Status × System (List Bytes))
        → 2 ≤ more
        → wait_loop 2 (λ i. (ok, method)) (server (some 1)) ≡ some r
        → wait_loop more (λ i. (ok, method)) (server (some 1)) ≡ some r)
wait_loop-decided_example = wait_loop-decided 2 (λ i. (ok, method)) (server (some 1))
