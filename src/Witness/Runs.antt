-- ===== src/Witness/Runs.antt =====
-- Whole runs of a concrete server.
use mathlib.Core.List.{Perm}
use redis_keyspace_amqp.Base.{
  ℕ, ◌+◌, ◌≡◌, refl, ◌∙◌, ap, inl, true, ◌&&◌, List, [], ◌∷◌, ◌++◌, none, some, Bytes, codes, arith,
}
use redis_keyspace_amqp.Memory.{done}
use redis_keyspace_amqp.System.{System, delivered}
use redis_keyspace_amqp.Storage.{redismodule_ok}
use redis_keyspace_amqp.Event.{
  on_keyspace_event, check_frames_and_heartbeat, is_redis_cluster, is_redis_master, ensure_timer,
}
use redis_keyspace_amqp.Event.Filter.{filtered, on_keyspace_event-find}
use redis_keyspace_amqp.Event.Timer.{IsPending}
use redis_keyspace_amqp.Event.Beats.{event-Ends, ensure_timer-enabled}
use redis_keyspace_amqp.Reach.Plain.{Ends-done}
use redis_keyspace_amqp.Command.{
  broadcast_redis_command, disconnect_amqp_command, amqp_disconnect_redis_command,
}
use redis_keyspace_amqp.Command.Answers.{replies}
use redis_keyspace_amqp.Cluster.{state_of}
use redis_keyspace_amqp.Ledger.{Action, acts, taken_all, lost_all}
use redis_keyspace_amqp.Ledger.Conserve.{holds}
use redis_keyspace_amqp.Ledger.Flow.{view}
use redis_keyspace_amqp.Load.{globals, on_load, subscription_mode}
use redis_keyspace_amqp.Load.Start.{IsSound}
use redis_keyspace_amqp.Load.Defaults.{Default, on_load-Default}
use redis_keyspace_amqp.Reach.{keyspace_event, timer, disconnect, Reaches, here, step, enter}
use redis_keyspace_amqp.Event.Pace.{IsPaced}
use redis_keyspace_amqp.Reach.Paced.{callbacks}
use redis_keyspace_amqp.Reach.Answers.{enter-replies}
use redis_keyspace_amqp.Reach.Audit.{offered, Reaches-conserves, Reaches-IsPending}
use redis_keyspace_amqp.Reach.Whole.{loaded-IsSound, loaded-IsPaced}
use redis_keyspace_amqp.Samples.{alone, list_key, up, masks, server, parting}

abbrev after_event : System (List Bytes)
after_event =
    filtered list_key up (codes "expired") (codes "user:7") masks.cells
      (ensure_timer up (server none))

is_master : is_redis_master up (server none) ≡ true
unfolding is_redis_master
is_master = refl

handled :
    on_keyspace_event list_key up (codes "expired") (codes "user:7") (server none)
    ≡ done (redismodule_ok, after_event)
handled =
    on_keyspace_event-find list_key up (codes "expired") (codes "user:7") (server none) refl
      is_master refl

event_ends :
    enter list_key up (keyspace_event (codes "expired") (codes "user:7")) (server none)
    ≡ done after_event
unfolding enter
event_ends = ap state_of handled

abbrev run : Reaches list_key up (server none) (check_frames_and_heartbeat list_key up after_event)
unfolding enter
run = step (keyspace_event (codes "expired") (codes "user:7")) event_ends (step timer refl here)

Reaches-conserves_example :
    let t = check_frames_and_heartbeat list_key up after_event in
    (as' : List Action) × (view list_key t ≡ acts as' (view list_key (server none)))
    × (taken_all as' ≡ offered list_key up run)
    × Perm
        (holds (view list_key t) ++ lost_all as' (view list_key (server none)))
        (holds (view list_key (server none)) ++ offered list_key up run)
Reaches-conserves_example = Reaches-conserves list_key up run

still_enabled : after_event.enabled ≡ true
still_enabled =
    Ends-done (λ (r : ℕ × System (List Bytes)). r.1.enabled ≡ true) _ (redismodule_ok, after_event)
      (event-Ends up list_key (λ t. t.enabled ≡ true) (codes "expired") (codes "user:7")
        (server none) (λ t k. k.enabled ∙ ensure_timer-enabled up (server none)) refl)
      handled

Reaches-IsPending_example : IsPending after_event
Reaches-IsPending_example =
    Reaches-IsPending list_key up (codes "expired") (codes "user:7") (inl refl) here
      (ap (λ b. b && true) is_master) event_ends here still_enabled

disconnect_ends :
    enter list_key alone (disconnect parting) (server none)
    ≡ done (disconnect_amqp_command parting (server none)).1
unfolding enter amqp_disconnect_redis_command broadcast_redis_command is_redis_cluster
disconnect_ends = refl

enter-replies_example :
    let t = (disconnect_amqp_command parting (server none)).1 in
    (replies t.trace ≡ replies [] + 2)
    × (t.db ≡ (server none).db)
    × (delivered t.trace ≡ delivered [])
enter-replies_example =
    enter-replies list_key alone (disconnect parting) (server none) _ tt disconnect_ends

default_events : subscription_mode [] ≡ some 768
unfolding subscription_mode
default_events = refl

on_load-Default_example :
    (t : System (List Bytes)) × (on_load list_key up [] (globals (codes "old" ∷ []))
      ≡ done (redismodule_ok, t))
    × Default list_key up (codes "old" ∷ []) t
on_load-Default_example =
    on_load-Default list_key up [] 768 (codes "old" ∷ []) (omega arith) (λ t. refl) (λ t. refl)
      default_events

abbrev loaded : System (List Bytes)
loaded =
    (on_load-Default list_key up [] 768 (codes "old" ∷ []) (omega arith) (λ t. refl) (λ t. refl)
      default_events).0

loaded_ends : on_load list_key up [] (globals (codes "old" ∷ [])) ≡ done (redismodule_ok, loaded)
loaded_ends =
    (on_load-Default list_key up [] 768 (codes "old" ∷ []) (omega arith) (λ t. refl) (λ t. refl)
      default_events).1

loaded-IsSound_example : IsSound (check_frames_and_heartbeat list_key up loaded)
unfolding enter
loaded-IsSound_example =
    loaded-IsSound list_key up [] (codes "old" ∷ []) (redismodule_ok, loaded) (λ t. (1, refl))
      loaded_ends (step timer refl here)

loaded-IsPaced_example : IsPaced 1 (check_frames_and_heartbeat list_key up loaded)
unfolding enter callbacks
loaded-IsPaced_example =
    loaded-IsPaced list_key up [] (codes "old" ∷ []) (redismodule_ok, loaded) loaded_ends
      (step timer refl here)
