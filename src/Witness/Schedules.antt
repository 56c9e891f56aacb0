-- ===== src/Witness/Schedules.antt =====
-- Whole schedules of calls on a concrete server.

use redis_keyspace_amqp.Base.{
  ℕ, ◌+◌, ◌≤◌, ◌≡◌, refl, ◌⊎◌, inl, inr, false, List, [], ◌∷◌, none, Bytes, codes, c_str, bytes_eq,
  arith,
}
use redis_keyspace_amqp.Memory.{done}
use redis_keyspace_amqp.Wire.{join}
use redis_keyspace_amqp.System.{System, delivered}
use redis_keyspace_amqp.Storage.{redismodule_err}
use redis_keyspace_amqp.Event.{is_redis_cluster}
use redis_keyspace_amqp.Config.Ready.{IsReady}
use redis_keyspace_amqp.Command.{cluster_message_type_cmd}
use redis_keyspace_amqp.Load.{globals, on_load}
use redis_keyspace_amqp.Reach.{
  Entry, keyspace_event, timer, disconnect, keymask_set, cluster_message, Reaches,
}
use redis_keyspace_amqp.Reach.Schedule.{words, AllHaveRoom, enter_all, enter_all-IsReady}
use redis_keyspace_amqp.Reach.Off.{AreQuiet, enter_all-Idle}
use redis_keyspace_amqp.Reach.Whole.{loaded-runs}
use redis_keyspace_amqp.Samples.{alone, command, list_key, up, server, config-IsReady, parting}

alone-single : (t : System (List Bytes)) → is_redis_cluster alone t ≡ false
unfolding is_redis_cluster
alone-single t = refl

abbrev told_config : Bytes
told_config = 107 ∷ 10 ∷ 50 ∷ []

-- A command, the timer, and a message with two fields.
abbrev cluster_calls : List Entry
cluster_calls =
    keymask_set command ∷ timer ∷ cluster_message cluster_message_type_cmd told_config [] ∷ []

cluster_calls-HaveRoom : AllHaveRoom list_key up cluster_calls
unfolding join c_str
cluster_calls-HaveRoom = (inr ((λ e. cc), omega arith), (tt, ((omega arith, omega arith), tt)))

cluster_words : 3 + words cluster_calls ≤ 2147483648
unfolding c_str
cluster_words = omega arith

enter_all-IsReady_example :
    (t : System (List Bytes)) × (enter_all list_key up cluster_calls (server none) ≡ done t)
    × Reaches list_key up (server none) t
    × IsReady t.config
enter_all-IsReady_example =
    enter_all-IsReady list_key up cluster_calls (server none) cluster_calls-HaveRoom config-IsReady
      (omega (arith, cluster_words))

loaded-runs_example :
    (r : ℕ × System (List Bytes)) × (on_load list_key up [] (globals []) ≡ done r)
    × ((r.0 ≡ redismodule_err)
        ⊎ ((t : System (List Bytes)) × (enter_all list_key up cluster_calls r.1 ≡ done t)
            × Reaches list_key up r.1 t
            × IsReady t.config))
loaded-runs_example =
    loaded-runs list_key up [] [] cluster_calls (omega arith) cluster_calls-HaveRoom
      (omega (arith, cluster_words))

abbrev switched_off : System (List Bytes)
switched_off = record (server none) { enabled = false }

abbrev waiting_calls : List Entry
waiting_calls =
    keymask_set command
    ∷ keyspace_event (codes "expired") (codes "cart")
    ∷ timer
    ∷ disconnect parting
    ∷ cluster_message cluster_message_type_cmd told_config []
    ∷ []

waiting_calls-HaveRoom : AllHaveRoom list_key alone waiting_calls
unfolding c_str
waiting_calls-HaveRoom =
    (inl alone-single, (tt, (tt, (inl alone-single, ((omega arith, omega arith), tt)))))

waiting_words : 3 + words waiting_calls ≤ 2147483648
unfolding c_str
waiting_words = omega arith

waiting_calls-AreQuiet : AreQuiet waiting_calls
unfolding c_str bytes_eq
waiting_calls-AreQuiet = (tt, (tt, (tt, (tt, ((λ e. cc), tt)))))

abbrev quiet_run :
    (t : System (List Bytes)) × (enter_all list_key alone waiting_calls switched_off ≡ done t)
    × Reaches list_key alone switched_off t
    × IsReady t.config
quiet_run =
    enter_all-IsReady list_key alone waiting_calls switched_off waiting_calls-HaveRoom
      config-IsReady (omega (arith, waiting_words))

enter_all-Idle_example :
    (quiet_run.0.enabled ≡ false)
    × (delivered quiet_run.0.trace ≡ delivered [])
    × (quiet_run.0.db ≡ (server none).db)
enter_all-Idle_example =
    enter_all-Idle list_key alone waiting_calls switched_off quiet_run.0 waiting_calls-AreQuiet refl
      quiet_run.1
