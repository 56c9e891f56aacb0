-- ===== src/Witness/Setup.antt =====
-- The configuration and the load of a concrete server.
use redis_keyspace_amqp.Base.{
  ℕ, ◌-◌, ◌≡◌, refl, List, [], ◌∷◌, none, Bytes, codes, c_str, arith, length, ◌≤◌,
}
use redis_keyspace_amqp.Memory.{done, u64_mod}
use redis_keyspace_amqp.StringArray.{StringArray}
use redis_keyspace_amqp.StringArray.Growth.{IsRoomy}
use redis_keyspace_amqp.System.{emit, Call, System}
use redis_keyspace_amqp.Storage.{redismodule_err, redismodule_ok}
use redis_keyspace_amqp.Event.{decimal}
use redis_keyspace_amqp.Config.Args.{Settings, arguments, mode_of, configured, half_configured}
use redis_keyspace_amqp.Config.Positions.{changed, setup_config-positions, setup_config-rejected}
use redis_keyspace_amqp.Config.Size.{Resized, sized, size_command-minus}
use redis_keyspace_amqp.Config.{setup_config, keymask_add_command}
use redis_keyspace_amqp.Config.Masks.{masks_after, keymask_add_command-after}
use redis_keyspace_amqp.Config.Ready.{IsReady}
use redis_keyspace_amqp.Config.Setup.{setup_config-IsReady}
use redis_keyspace_amqp.Load.Ready.{Loaded, on_load-Loaded}
use redis_keyspace_amqp.Strtol.{strtol}
use redis_keyspace_amqp.Load.{on_load}
use redis_keyspace_amqp.Samples.{
  command, outage, list_key, up, masks, config, server, masks-IsRoomy, config-IsReady,
}

abbrev settings : List Bytes
settings = codes "key_evt_amqp.config_set" ∷ codes "10.0.0.1" ∷ codes "5673" ∷ codes "user" ∷ []

setup_config-IsReady_example :
    (r : ℕ × System (List Bytes)) × (setup_config list_key up settings 1 (server none) ≡ done r)
    × IsReady r.1.config
    × (length r.1.config.key_masks.cells ≤ 5)
setup_config-IsReady_example =
    setup_config-IsReady list_key up settings 1 (server none) config-IsReady (omega arith)

keymask_add_command-after_example :
    (arr : StringArray) × (keymask_add_command up command (server none)
      ≡ done (redismodule_ok, record (server none) { config = record config { key_masks = arr } }))
    × (arr.cells ≡ masks_after masks.cells command)
    × IsRoomy arr
keymask_add_command-after_example =
    keymask_add_command-after up command (server none) masks-IsRoomy (omega arith)

size_command-minus_example :
    Resized list_key
      (codes "size")
      1
      (server none)
      (u64_mod - 1)
      (sized list_key (codes "size") 1 (server none) (b'-' ∷ decimal 1))
size_command-minus_example =
    size_command-minus list_key (codes "size") 1 (server none) (omega arith) (omega arith)

abbrev given : Bytes → Settings
given mode = record {
  hostname = codes "10.0.0.1";
  port = codes "5673";
  username = codes "user";
  password = codes "pass";
  heartbeat = codes "20";
  exchange = codes "ex";
  routing_key = codes "rk";
  delivery_mode = mode;
  max_size = codes "1000";
}

mode_two : mode_of (given (codes "2")) ≡ 2
unfolding strtol c_str
mode_two = refl

mode_three : mode_of (given (codes "3")) ≡ 3
unfolding strtol c_str
mode_three = refl

setup_config-positions_example :
    (arr : StringArray) × (setup_config list_key up
        (codes "config_set" ∷ arguments (given (codes "2")) outage)
        1
        (server none)
      ≡ done (
        redismodule_ok,
        changed list_key up (configured (given (codes "2")) arr config) (server none),
      ))
    × (arr.cells ≡ masks_after [] outage)
    × IsRoomy arr
setup_config-positions_example =
    setup_config-positions list_key up (codes "config_set") (given (codes "2")) outage (server none)
      config-IsReady (rw mode_two (omega arith)) (omega arith)

setup_config-rejected_example :
    (arr : StringArray) × (setup_config list_key up
        (codes "config_set" ∷ arguments (given (codes "3")) outage)
        1
        (server none)
      ≡ done (
        redismodule_err,
        emit
            (Call.log "Wrong value for deliveryMode")
            (record (server none) { config = half_configured (given (codes "3")) arr config }),
      ))
    × (arr.cells ≡ [])
setup_config-rejected_example =
    setup_config-rejected list_key up (codes "config_set") (given (codes "3")) outage (server none)
      config-IsReady (rw mode_three (omega arith))

on_load-Loaded_example :
    (r : ℕ × System (List Bytes)) × (on_load list_key up
        (codes "xe" ∷ codes "10.0.0.1" ∷ [])
        (server none)
      ≡ done r)
    × Loaded list_key up 1 r
on_load-Loaded_example =
    on_load-Loaded list_key up (omega arith) (codes "xe" ∷ codes "10.0.0.1" ∷ []) (omega arith)
      (server none)
