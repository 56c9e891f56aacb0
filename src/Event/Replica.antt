-- ===== src/Event/Replica.antt =====
-- A node that is no master (library.c, lines 133-161 and 172-208): its events and its timer.
use redis_keyspace_amqp.Base.{◌≡◌, ap, ◌&&◌, true, false, none, map, Bytes, c_str}
use redis_keyspace_amqp.Memory.{done}
use redis_keyspace_amqp.System.{Env, System}
use redis_keyspace_amqp.Amqp.Healthy.{Healthy}
use redis_keyspace_amqp.Storage.{ListKey, redismodule_ok}
use redis_keyspace_amqp.Event.{is_redis_master, on_keyspace_event, check_frames_and_heartbeat}
use redis_keyspace_amqp.Event.Filter.{on_keyspace_event-off}
use redis_keyspace_amqp.Event.Timer.{IsPending}
use redis_keyspace_amqp.Event.Beats.{check-IsPending}
use redis_keyspace_amqp.Event.Recovery.{Emptied, check-Emptied}

module _ {Db : Type 0} (key : ListKey Db) (env : Env) (healthy : Healthy env) where
  -- On a replica, with forwarding enabled, no connection and a broker that answers, a keyspace event
  -- changes nothing; but the timer's callback, which does not look at the role, opens a connection,
  -- delivers all that the replica's storage holds, in order and each once, and goes on.
  pub replica-drains :
      (event key_name : Bytes) (s : System Db)
      → is_redis_master env s ≡ false
      → s.enabled ≡ true
      → s.conn ≡ none
      → let t = check_frames_and_heartbeat key env s in
        (on_keyspace_event key env event key_name s ≡ done (redismodule_ok, s))
        × Emptied key (map c_str (key.elements s.db)) s t
        × IsPending t
  replica-drains event key_name s replica on down = (
    on_keyspace_event-off key env event key_name s (ap (λ b. b && s.enabled) replica),
    check-Emptied key env healthy s on down,
    check-IsPending env key s on,
  )
