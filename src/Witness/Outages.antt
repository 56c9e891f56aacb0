-- ===== src/Witness/Outages.antt =====
-- An event that is delivered at once, and an outage with its end, on a concrete server.
use redis_keyspace_amqp.Base.{
  ◌≡◌, refl, ◌∙◌, ap, inl, inr, true, List, [], ◌∷◌, ◌++◌, map, none, Bytes, codes, c_str,
}
use redis_keyspace_amqp.Memory.{done}
use redis_keyspace_amqp.Match.{match}
use redis_keyspace_amqp.Match.Decides.{match_iff}
use redis_keyspace_amqp.System.{System}
use redis_keyspace_amqp.Amqp.Healthy.{Healthy}
use redis_keyspace_amqp.Storage.{redismodule_ok}
use redis_keyspace_amqp.Event.{
  on_keyspace_event, check_frames_and_heartbeat, is_redis_master, message_string,
}
use redis_keyspace_amqp.Event.Timer.{IsPending}
use redis_keyspace_amqp.Event.Selection.{Chosen}
use redis_keyspace_amqp.Event.Delivery.{on_keyspace_event-delivers}
use redis_keyspace_amqp.Event.Recovery.{Emptied}
use redis_keyspace_amqp.Event.Waiting.{Selected, handle_each, texts}
use redis_keyspace_amqp.Event.Outage.{outage-recovers}
use redis_keyspace_amqp.Samples.{list_key, up, down, masks, server}

is_master : is_redis_master up (server none) ≡ true
unfolding is_redis_master
is_master = refl

up-Healthy : Healthy up
up-Healthy = record {
  opens = λ t. (1, refl);
  socket = λ t. refl;
  connects = λ t. refl;
  accepts = λ t. refl;
  channel = λ t. refl;
  silent = λ t. refl;
  takes = λ t. refl;
}

user_matches : match (codes "^user:.*$") (codes "user:7") ≡ true
unfolding match
user_matches = refl

whole_key : c_str (codes "user:7") ≡ codes "user:7"
unfolding c_str
whole_key = refl

abbrev first_mask : Chosen masks.cells (c_str (codes "user:7"))
first_mask = record {
  before = [];
  mask = codes "^user:.*$";
  after = codes "session" ∷ [];
  splits = refl;
  picked = inr (
      (match_iff (codes "^user:.*$") (c_str (codes "user:7"))).0
        (ap (match (codes "^user:.*$")) whole_key ∙ user_matches));
  passed = tt;
}

-- The server without a connection, and its timer pending.
abbrev lonely : System (List Bytes)
lonely = record (server none) { timer_id = 7 }

abbrev lost_events : List (Selected masks.cells)
lost_events =
    record { event = codes "set"; key_name = codes "user:7"; chosen = first_mask }
    ∷ record { event = codes "del"; key_name = codes "user:7"; chosen = first_mask }
    ∷ []

always_master : (t : System (List Bytes)) → is_redis_master down t ≡ true
unfolding is_redis_master
always_master t = refl

is_down : lonely.conn ≡ none
is_down = refl

outage-recovers_example :
    (t : System (List Bytes)) × (handle_each list_key down lost_events lonely ≡ done t)
    × Emptied list_key
        (map c_str (lonely.db ++ texts list_key down lost_events lonely))
        lonely
        (check_frames_and_heartbeat list_key up t)
    × IsPending (check_frames_and_heartbeat list_key up t)
outage-recovers_example =
    outage-recovers list_key down up up-Healthy lonely lost_events always_master refl refl (λ e. cc)
      is_down refl

on_keyspace_event-delivers_example :
    let m = message_string 3 (codes "expired") (c_str (codes "user:7")) in
    (t : System (List Bytes)) × (on_keyspace_event list_key up
        (codes "expired")
        (codes "user:7")
        (server none)
      ≡ done (redismodule_ok, t))
    × Emptied list_key (c_str m ∷ map c_str (server none).db) (server none) t
on_keyspace_event-delivers_example =
    on_keyspace_event-delivers list_key up up-Healthy (codes "expired") (codes "user:7")
      (server none) refl is_master refl (inl (refl, refl)) first_mask
