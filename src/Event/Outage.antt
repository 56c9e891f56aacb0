-- ===== src/Event/Outage.antt =====
-- An outage from its first event to its end (library.c, lines 71-210): what was stored while there was
-- no connection reaches the broker at the first call of the timer that connects.
use redis_keyspace_amqp.Base.{
  ◌≡◌, refl, ◌∙◌, true, false, List, ◌++◌, map, none, c_str, ◌≢◌, length,
}
use redis_keyspace_amqp.Memory.{done}
use redis_keyspace_amqp.System.{Env, System}
use redis_keyspace_amqp.Amqp.Healthy.{Healthy}
use redis_keyspace_amqp.Storage.{ListKey, is_full}
use redis_keyspace_amqp.Event.{is_redis_master, check_frames_and_heartbeat}
use redis_keyspace_amqp.Event.Timer.{IsPending}
use redis_keyspace_amqp.Event.Beats.{check-IsPending}
use redis_keyspace_amqp.Event.Recovery.{Emptied, check-Emptied}
use redis_keyspace_amqp.Event.Waiting.{Selected, handle_each, texts, IsWaiting, handle_each-Kept}

module _ {Db : Type 0} (key : ListKey Db) (env : Env) where
  -- On a node that stays a master, with forwarding enabled, masks that its array counts, a timer
  -- pending, no connection, and a storage counter below the limit, or the limit 0, the event
  -- handler stores any number of events that masks select. The next call of the timer, with a
  -- broker that answers, delivers what was stored before and then the messages of these events, all
  -- in order and each once, and leaves the storage empty, the connection open and a timer pending.
  pub outage-recovers :
      (after : Env)
      → Healthy after
      → (s : System Db) (es : List (Selected s.config.key_masks.cells))
      → ((t : System Db) → is_redis_master env t ≡ true)
      → s.config.key_masks.size ≡ length s.config.key_masks.cells
      → s.enabled ≡ true
      → s.timer_id ≢ 0
      → s.conn ≡ none
      → is_full key s ≡ false
      → (t : System Db) × (handle_each key env es s ≡ done t)
        × Emptied key
            (map c_str (key.elements s.db ++ texts key env es s))
            s
            (check_frames_and_heartbeat key after t)
        × IsPending (check_frames_and_heartbeat key after t)
  outage-recovers after healthy s es master counted on set down room =
      let waiting : IsWaiting key env s.config.key_masks.cells s = record {
        counted = counted;
        chosen_from = refl;
        on = on;
        set = set;
        down = down;
        room = room;
      } in
      let (t, runs, k) = handle_each-Kept key env es s master waiting in
      let e = check-Emptied key after healthy t (k.enabled ∙ on) (k.conn ∙ down) in
      (
        t,
        runs,
        record {
          sent = e.sent ∙ (λ i. k.sent i ++ map c_str (k.stored i));
          left = e.left;
          up = e.up;
        },
        check-IsPending after key t (k.enabled ∙ on),
      )
