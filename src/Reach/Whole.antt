-- ===== src/Reach/Whole.antt =====
-- The life of the module, from its load on (library.c, lines 13-601).
use redis_keyspace_amqp.Base.{ℕ, ◌+◌, ◌≤◌, ◌≡◌, ◌⊎◌, inl, inr, List, Bytes, length, arith}
use redis_keyspace_amqp.Memory.{done}
use redis_keyspace_amqp.System.{Env, System}
use redis_keyspace_amqp.Amqp.Handles.{NeverNull}
use redis_keyspace_amqp.Storage.{ListKey, redismodule_err}
use redis_keyspace_amqp.Load.{globals, on_load}
use redis_keyspace_amqp.Load.Start.{IsSound, FreshResult, on_load-IsFresh}
use redis_keyspace_amqp.Load.Ready.{on_load-Loaded}
use redis_keyspace_amqp.Config.Ready.{IsReady}
use redis_keyspace_amqp.Reach.{Entry, Reaches}
use redis_keyspace_amqp.Reach.Ready.{length-drop_one-le}
use redis_keyspace_amqp.Reach.Schedule.{words, AllHaveRoom, enter_all, enter_all-IsReady}
use redis_keyspace_amqp.Event.Pace.{IsPaced}
use redis_keyspace_amqp.Reach.Paced.{callbacks, Reaches-IsPaced}
use redis_keyspace_amqp.Reach.Plain.{Ends-done}
use redis_keyspace_amqp.Reach.Owned.{Reaches-IsOwned}
use redis_keyspace_amqp.Reach.Audit.{Reaches-IsTimed, Reaches-IsTyped}

module _ {Db : Type 0} (key : ListKey Db) (env : Env) where
  -- Loaded from its globals with any arguments, the module keeps in every later state of any run:
  -- port, heartbeat, size and length counter fit their C types and the delivery mode is 0, 1 or 2; a
  -- timer identifier other than 0 is that of the pending timer; and `conn` is the one live
  -- connection or NULL, if amqp_new_connection returns no NULL.
  pub loaded-IsSound :
      (argv : List Bytes) (d : Db) (r : ℕ × System Db) {t : System Db}
      → NeverNull env
      → on_load key env argv (globals d) ≡ done r
      → Reaches key env r.1 t
      → IsSound t
  loaded-IsSound argv d r never loaded run =
      let start = Ends-done FreshResult _ r (on_load-IsFresh key env argv d) loaded in
      record {
        owned = Reaches-IsOwned key env never start.owned run;
        timed = Reaches-IsTimed key env start.timed run;
        typed = Reaches-IsTyped key env start.typed run;
      }

  -- With 64 bytes behind a request for 8, loading the module with any arguments ends without a
  -- fault. If it succeeds, any sequence of events, timer callbacks, commands and cluster messages
  -- after it runs to its end without a fault, as long as each wait for frames ends (the assumption
  -- `ends` of Incoming, without which the code can spin), the allocator leaves room for each text
  -- that the node broadcasts (or it is in no cluster) and for the fields of each message that it
  -- reads, and the words of all commands and messages, with those of the load, are at most 2 ^ 31.
  pub loaded-runs :
      (argv : List Bytes) (d : Db) (es : List Entry)
      → 64 ≤ env.allocator.usable 8
      → AllHaveRoom key env es
      → length argv + words es ≤ 2147483648
      → (r : ℕ × System Db) × (on_load key env argv (globals d) ≡ done r)
        × ((r.0 ≡ redismodule_err)
            ⊎ ((t : System Db) × (enter_all key env es r.1 ≡ done t)
                × Reaches key env r.1 t
                × IsReady t.config))
  loaded-runs argv d es space room small =
      let (r, ends, loaded) =
        on_load-Loaded key env space argv (omega (arith, length-drop_one-le argv)) (globals d) in
      (
        r,
        ends,
        elim loaded [
          | inl failed ↦ inl failed
          | inr (ready, few) ↦
              inr (
                enter_all-IsReady key env es r.1 room ready
                  (omega (arith, length-drop_one-le argv)))
        ],
      )

  -- Loaded from its globals with any arguments, the module has in every later state of any run
  -- started at most as many timers, those with the identifier 0 aside, as it has stopped, as callbacks
  -- have run, and as connects of clients or other nodes have succeeded, and one more if it keeps an
  -- identifier.
  pub loaded-IsPaced :
      (argv : List Bytes) (d : Db) (r : ℕ × System Db) {t : System Db}
      → on_load key env argv (globals d) ≡ done r
      → (run : Reaches key env r.1 t) → IsPaced (callbacks key env run) t
  loaded-IsPaced argv d r loaded run =
      let start = Ends-done FreshResult _ r (on_load-IsFresh key env argv d) loaded in
      omega (arith, Reaches-IsPaced key env 0 start.paced run)
