-- ===== src/Event.antt =====
-- library.c, lines 112-210: publishing one event, the timer's callback, and the filter of keyspace
-- events by key masks.
pub mod Message
pub mod Publish
pub mod Filter
pub mod Selection
pub mod Timer
pub mod Pace
pub mod Beats
pub mod Recovery
pub mod Waiting
pub mod Outage
pub mod Delivery
pub mod Replica
pub mod Types
use redis_keyspace_amqp.Base.{
  ℕ, zero, suc, ◌+◌, ◌/◌, ◌%◌, Bool, true, false, not, ◌&&◌, ◌||◌, List, [], ◌∷◌, ◌++◌, Option,
  none, some, Byte, Bytes, codes, c_str, bytes_eq, bit_and, ◌==◌, ltb, if◌then◌else◌,
}
use redis_keyspace_amqp.Memory.{Outcome, done, fault, text_bytes, ◌>>=◌}
use redis_keyspace_amqp.Match.{match}
use redis_keyspace_amqp.StringArray.{StringArray, get_length, get_element}
use redis_keyspace_amqp.System.{
  Status, ok, timeout, connection_closed, other, Call, Env, System, emit,
}
use redis_keyspace_amqp.Amqp.{
  redis_amqp_ok, amqp_wait_frame, amqp_disconnect, amqp_connect, amqp_publish,
}
use redis_keyspace_amqp.Storage.{
  ListKey, redismodule_ok, publish_stored_events, push_event_to_storage,
}

-- `%d` for an int that is not negative: its digits, of which there are 10 at most.
unfoldable pub digits : ℕ → ℕ → Bytes
digits zero n = (48 + n % 10) ∷ []
digits (suc fuel) n =
    let front = digits fuel (n / 10) in
    if ltb n 10 then (48 + n) ∷ [] else front ++ (48 + n % 10) ∷ []

unfoldable pub decimal : ℕ → Bytes
unfolding digits
decimal n = digits 9 n

-- sprintf (messageString, "%d\n%s\n%s", …), line 116
unfoldable pub message_string : ℕ → Bytes → Bytes → Bytes
unfolding decimal
message_string db event keyname = decimal db ++ 10 ∷ (event ++ 10 ∷ keyname)

-- `checkFrameInterval`, and the macros of redismodule.h at lines 69 and 75
abbrev pub check_frame_interval : ℕ
check_frame_interval = 1000

abbrev pub ctx_flags_master : ℕ
ctx_flags_master = 4

abbrev pub ctx_flags_cluster : ℕ
ctx_flags_cluster = 32

-- KEY_MASK_ALL
abbrev pub key_mask_all : Bytes
key_mask_all = codes "ALL"

-- The tests at lines 195 and 200.
unfoldable pub selects : Bytes → Bytes → Bool
unfolding match bytes_eq
selects mask keyname = bytes_eq mask key_mask_all || match mask keyname

-- lines 193-206: the first mask that selects the key, from index `i` on
unfoldable pub mask_loop : ℕ → ℕ → StringArray → Bytes → Outcome (Option Bytes)
mask_loop zero i arr keyname = done none
mask_loop (suc rounds) i arr keyname =
    let later = mask_loop rounds (i + 1) arr keyname in
    elim (get_element arr i) [
      | none ↦ fault
      | some mask ↦ if selects mask keyname then done (some mask) else later
    ]

module _ {Db : Type 0} (env : Env) where
  -- amqpConnect with the globals, as each caller writes it
  unfoldable pub connect_configured : System Db → ℕ × System Db
  connect_configured s =
      amqp_connect env (text_bytes s.config.hostname) s.config.port (text_bytes s.config.username)
        (text_bytes s.config.password) s.config.heartbeat s

  -- `heardBeatTimerId = RedisModule_CreateTimer (…)`
  unfoldable pub start_timer : System Db → System Db
  start_timer s =
      let id = env.create_timer s.trace in
      emit (Call.create_timer check_frame_interval id) (record s { timer_id = id })

  unfoldable pub is_redis_cluster : System Db → Bool
  is_redis_cluster s = not (bit_and (env.context_flags s.trace) ctx_flags_cluster == 0)

  unfoldable pub is_redis_master : System Db → Bool
  is_redis_master s = not (bit_and (env.context_flags s.trace) ctx_flags_master == 0)

  -- lines 183-187
  unfoldable pub ensure_timer : System Db → System Db
  ensure_timer s = if s.timer_id == 0 then start_timer (connect_configured s).1 else s

module _ {Db : Type 0} (key : ListKey Db) (env : Env) where
  -- lines 120-125
  abbrev pub after_event : Status → Bytes → System Db → System Db
  after_event ok message s = (publish_stored_events key env s).1
  after_event _ message s =
      push_event_to_storage key message (emit (Call.log "AMQP Publishing error: %s") s)

  abbrev pub event_at : Option ℕ → Bytes → System Db → System Db
  event_at none message s =
      push_event_to_storage key message (emit (Call.log "AMQP Publishing error: no connection") s)
  event_at (some h) message s =
      let (st, s') =
        amqp_publish env s.config.exchange s.config.routing_key s.config.publish_props message s in
      after_event st message s'

  unfoldable pub publish_event : Bytes → Bytes → System Db → System Db
  publish_event event keyname s =
      event_at s.conn (message_string (env.selected_db s.trace) event keyname) s

  -- lines 145-150 and 153-158
  unfoldable pub reconnect : System Db → System Db
  reconnect s =
      let (res, s') = connect_configured env s in
      if res == redis_amqp_ok then (publish_stored_events key env s').1 else (amqp_disconnect s').1

  -- lines 143-150
  abbrev pub after_wait : Status → System Db → System Db
  after_wait ok s = s
  after_wait _ s = reconnect (amqp_disconnect s).1

  abbrev pub check_at : Option ℕ → System Db → System Db
  check_at none s = reconnect s
  check_at (some h) s = let (st, s') = amqp_wait_frame env s in after_wait st s'

  unfoldable pub check_frames_and_heartbeat : System Db → System Db
  check_frames_and_heartbeat s =
      let s1 = record s { timer_id = 0 } in
      if not s.enabled then s1 else start_timer env (check_at s1.conn s1)

  abbrev pub publish_selected : Option Bytes → Bytes → Bytes → System Db → System Db
  publish_selected none event keyname s = s
  publish_selected (some mask) event keyname s = publish_event event keyname (
      emit
        (if bytes_eq mask key_mask_all
          then Call.log "Keyspace Event (ALL): %i / %s / %s"
          else Call.log "Keyspace Event (%s): %i / %s / %s")
        s)

  -- lines 189-206
  unfoldable pub filter_event : Bytes → Bytes → System Db → Outcome (System Db)
  filter_event event key_name s = do
    let keyname = c_str key_name
    selected ← mask_loop (get_length s.config.key_masks) 0 s.config.key_masks keyname
    done (publish_selected selected event keyname s)

  unfoldable pub on_keyspace_event : Bytes → Bytes → System Db → Outcome (ℕ × System Db)
  on_keyspace_event event key_name s =
      if is_redis_master env s && s.enabled
      then (filter_event event key_name (ensure_timer env s) >>= λ s'. done (redismodule_ok, s'))
      else done (redismodule_ok, s)
