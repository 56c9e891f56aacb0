-- ===== src/Reach/Schedule.antt =====
-- Whole schedules of calls (library.c, lines 133-210, 410-506 and 508-601), on a node of its own and on a
-- node of a cluster: none of them faults.
use redis_keyspace_amqp.Base.{ℕ, ◌+◌, ◌≤◌, ◌≡◌, refl, List, [], ◌∷◌, length, arith}
use redis_keyspace_amqp.Memory.{Outcome, done, ◌>>=◌}
use redis_keyspace_amqp.System.{Env, System}
use redis_keyspace_amqp.Storage.{ListKey}
use redis_keyspace_amqp.Config.Ready.{IsReady}
use redis_keyspace_amqp.Reach.{Entry, enter, Reaches, here, step}
use redis_keyspace_amqp.Reach.Calls.{HasRoom, arguments_of, enter-IsReady}

-- All words of all commands and cluster messages.
abbrev pub words : List Entry → ℕ
words [] = 0
words (e ∷ es) = length (arguments_of e) + words es

module _ {Db : Type 0} (key : ListKey Db) (env : Env) where
  -- The allocator leaves room for every command that is broadcast and every message that is read.
  abbrev pub AllHaveRoom : List Entry → Type 0
  AllHaveRoom [] = Unit
  AllHaveRoom (e ∷ es) = HasRoom key env e × AllHaveRoom es

  unfoldable pub enter_all : List Entry → System Db → Outcome (System Db)
  enter_all [] s = done s
  enter_all (e ∷ es) s = enter key env e s >>= enter_all es

  -- Any sequence of events, timer callbacks, commands and cluster messages runs to its end without
  -- a fault, if each wait for frames ends (the assumption `ends` of Incoming, without which the
  -- code can spin), the configuration was ready, the allocator leaves room for each text that the
  -- node broadcasts (or it is in no cluster) and for the fields of each message that it reads, and
  -- the masks, with the words of all commands and messages, are at most 2 ^ 31; the configuration
  -- stays ready.
  pub enter_all-IsReady :
      (es : List Entry) (s : System Db)
      → AllHaveRoom es
      → IsReady s.config
      → length s.config.key_masks.cells + words es ≤ 2147483648
      → (t : System Db) × (enter_all es s ≡ done t) × Reaches key env s t × IsReady t.config
  unfolding enter_all
  enter_all-IsReady [] s room ready small = (s, refl, here, ready)
  enter_all-IsReady (e ∷ es) s (room, later) ready small =
      let (s1, ends, ready1, few) = enter-IsReady key env e s room ready (omega arith) in
      let (t, ends', run, ready') = enter_all-IsReady es s1 later ready1 (omega arith) in
      (t, rw ends ends', step e ends run, ready')
