-- ===== src/Config.antt =====
-- library.c, lines 212-309 and 375-408: the configuration by arguments, and the key masks.
pub mod Masks
pub mod Ready
pub mod Setup
pub mod Size
pub mod Fits
pub mod Args
pub mod Positions
use redis_keyspace_amqp.Base.{
  ℕ, suc, ◌+◌, ◌%◌, Bool, true, false, List, [], ◌∷◌, Bytes, codes, c_str, bytes_eq, ◌==◌, ltb,
  if◌then◌else◌, length, drop,
}
use redis_keyspace_amqp.Memory.{
  Outcome, done, ◌>>=◌, Allocator, copy_string_allocated, copy_amqp_string_allocated, u8_mod,
  u16_mod, u32_mod,
}
use redis_keyspace_amqp.StringArray.{StringArray, init as string_array_init, add, clean}
use redis_keyspace_amqp.Strtol.{strtol}
use redis_keyspace_amqp.System.{Props, Call, Config, Env, System, emit}
use redis_keyspace_amqp.Storage.{ListKey, redismodule_ok, redismodule_err, setup_fallback_storage}
use redis_keyspace_amqp.Event.{key_mask_all}

-- lines 272-281, and lines 399-405: `true` stops the loop.
unfoldable pub mask_step : Allocator → Bytes → StringArray → Outcome (Bool × StringArray)
mask_step al arg arr =
    if bytes_eq (c_str arg) key_mask_all
    then (add al key_mask_all (clean arr) >>= λ arr'. done (true, arr'))
    else (add al arg arr >>= λ arr'. done (false, arr'))

-- The state of the loop after an argument: go on, `stop`, or the error return at line 265.
pub data Progress : Type 0 where
  go stopped rejected : Config → Progress

abbrev pub mask_progress : Config → Bool × StringArray → Progress
mask_progress c (false, arr) = go (record c { key_masks = arr })
mask_progress c (true, arr) = stopped (record c { key_masks = arr })

abbrev pub set_delivery_mode : ℕ → Config → Progress
set_delivery_mode mode c =
    if ltb 2 mode
    then rejected c
    else go (record c { publish_props = record c.publish_props { delivery_mode = mode } })

-- The cases of the `switch`, lines 239-283.
pub data Setting : Type 0 where
  at_hostname at_port at_username at_password at_heartbeat at_exchange : Setting
  at_routing_key at_delivery_mode at_max_size at_key_mask : Setting

abbrev pub setting_at : ℕ → Setting
setting_at i =
    if i == 0
    then at_hostname
    else if i == 1
    then at_port
    else if i == 2
    then at_username
    else if i == 3
    then at_password
    else if i == 4
    then at_heartbeat
    else if i == 5
    then at_exchange
    else if i == 6
    then at_routing_key
    else if i == 7
    then at_delivery_mode
    else if i == 8
    then at_max_size
    else at_key_mask

-- lines 239-283
unfoldable pub set_arg : Allocator → Setting → Bytes → Config → Outcome Progress
set_arg al at_hostname arg c = do
  t ← copy_string_allocated arg c.hostname true
  done (go (record c { hostname = t }))
set_arg al at_port arg c = done (go (record c { port = strtol (c_str arg) % u16_mod }))
set_arg al at_username arg c = do
  t ← copy_string_allocated arg c.username true
  done (go (record c { username = t }))
set_arg al at_password arg c = do
  t ← copy_string_allocated arg c.password true
  done (go (record c { password = t }))
set_arg al at_heartbeat arg c = done (go (record c { heartbeat = strtol (c_str arg) % u32_mod }))
set_arg al at_exchange arg c = do
  t ← copy_amqp_string_allocated arg c.exchange true
  done (go (record c { exchange = t }))
set_arg al at_routing_key arg c = do
  t ← copy_amqp_string_allocated arg c.routing_key true
  done (go (record c { routing_key = t }))
set_arg al at_delivery_mode arg c = done (set_delivery_mode (strtol (c_str arg) % u8_mod) c)
set_arg al at_max_size arg c = done (go (record c { max_size = strtol (c_str arg) }))
set_arg al at_key_mask arg c = do r ← mask_step al arg c.key_masks; done (mask_progress c r)

abbrev pub after_arg : (Config → Outcome Progress) → Progress → Outcome Progress
after_arg next (go c) = next c
after_arg next (stopped c) = done (stopped c)
after_arg next (rejected c) = done (rejected c)

-- lines 238-284, from index `i` on
unfoldable pub args_loop : Allocator → ℕ → List Bytes → Config → Outcome Progress
args_loop al i [] c = done (go c)
args_loop al i (arg ∷ args) c =
    set_arg al (setting_at i) arg c >>= after_arg (args_loop al (suc i) args)

-- lines 234-236
abbrev pub reset_masks : List Bytes → Config → Config
reset_masks args c = if ltb 9 (length args) then record c { key_masks = clean c.key_masks } else c

module _ {Db : Type 0} (key : ListKey Db) where
  -- lines 286-291, or 264-265
  abbrev pub finish_setup : Progress → System Db → ℕ × System Db
  finish_setup (rejected c) s =
      (redismodule_err, emit (Call.log "Wrong value for deliveryMode") (record s { config = c }))
  finish_setup (go c) s = (
    redismodule_ok,
    setup_fallback_storage key (emit (Call.log "MODULE CONFIG CHANGED") (record s { config = c })),
  )
  finish_setup (stopped c) s = (
    redismodule_ok,
    setup_fallback_storage key (emit (Call.log "MODULE CONFIG CHANGED") (record s { config = c })),
  )

  abbrev pub setup_args : Allocator → List Bytes → System Db → Outcome (ℕ × System Db)
  setup_args al [] s = done (redismodule_ok, setup_fallback_storage key s)
  setup_args al (arg ∷ args) s =
      args_loop al 0 (arg ∷ args) (reset_masks (arg ∷ args) s.config) >>= λ p.
      done (finish_setup p s)

  -- `args` is what stands in `argv` from `argOffset` on.
  unfoldable pub setup_config : Env → List Bytes → ℕ → System Db → Outcome (ℕ × System Db)
  setup_config env argv arg_offset s = setup_args env.allocator (drop arg_offset argv) s

  unfoldable pub setup_fallback_storage_size_command : List Bytes → System Db → ℕ × System Db
  setup_fallback_storage_size_command (name ∷ arg ∷ []) s = (
    redismodule_ok,
    setup_fallback_storage key
        (record s { config = record s.config { max_size = strtol (c_str arg) } }),
  )
  setup_fallback_storage_size_command _ s = (redismodule_err, s)

-- library.h, lines 15-25
abbrev pub default_fallback_storage_key : Bytes
default_fallback_storage_key = codes "REDIS_MODULE-key_evt_amqp-fallback_storage"

abbrev pub default_amqp_host : Bytes
default_amqp_host = codes "127.0.0.1"

abbrev pub default_amqp_user : Bytes
default_amqp_user = codes "guest"

abbrev pub default_amqp_pass : Bytes
default_amqp_pass = codes "guest"

abbrev pub default_amqp_exchange : Bytes
default_amqp_exchange = codes "amq.direct"

abbrev pub default_amqp_routingkey : Bytes
default_amqp_routingkey = codes "redis_keyspace_events"

-- lines 212-224
unfoldable pub setup_default_config : {Db : Type 0} → System Db → Outcome (System Db)
setup_default_config s = do
  host ← copy_string_allocated default_amqp_host s.config.hostname false
  user ← copy_string_allocated default_amqp_user s.config.username false
  pass ← copy_string_allocated default_amqp_pass s.config.password false
  ex ← copy_amqp_string_allocated default_amqp_exchange s.config.exchange false
  rk ← copy_amqp_string_allocated default_amqp_routingkey s.config.routing_key false
  done (record s {
    config = record s.config {
      hostname = host;
      username = user;
      password = pass;
      exchange = ex;
      routing_key = rk;
    };
    storage_key = default_fallback_storage_key;
  })

module _ {Db : Type 0} where
  unfoldable pub keymask_clean_command : System Db → ℕ × System Db
  keymask_clean_command s = (
    redismodule_ok,
    record s { config = record s.config { key_masks = clean s.config.key_masks } },
  )

-- lines 398-406: from index 0, the command's name
unfoldable pub add_masks : Allocator → List Bytes → StringArray → Outcome StringArray
add_masks al [] arr = done arr
add_masks al (arg ∷ args) arr = mask_step al arg arr >>= λ r.
    let (stop, arr') = r in elim stop [ true ↦ done arr' | false ↦ add_masks al args arr' ]

module _ {Db : Type 0} (env : Env) where
  unfoldable pub keymask_add_command : List Bytes → System Db → Outcome (ℕ × System Db)
  keymask_add_command argv s = add_masks env.allocator argv s.config.key_masks >>= λ arr.
      done (redismodule_ok, record s { config = record s.config { key_masks = arr } })
