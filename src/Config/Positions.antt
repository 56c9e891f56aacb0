-- ===== src/Config/Positions.antt =====
-- What each argument of `setupConfig` is for (library.c, lines 226-292), by its position.
use redis_keyspace_amqp.Base.{
  ◌+◌, ◌≤◌, ◌<◌, ◌≡◌, refl, ◌∙◌, ap, Bool, true, false, List, ◌∷◌, Bytes, length, arith,
}
use redis_keyspace_amqp.Memory.{done}
use redis_keyspace_amqp.StringArray.{StringArray}
use redis_keyspace_amqp.StringArray.Growth.{IsRoomy}
use redis_keyspace_amqp.System.{Call, Config, Env, System, emit}
use redis_keyspace_amqp.Storage.{ListKey, redismodule_ok, redismodule_err, setup_fallback_storage}
use redis_keyspace_amqp.Config.{mask_progress, finish_setup, setup_config}
use redis_keyspace_amqp.Config.Masks.{masks_after}
use redis_keyspace_amqp.Config.Ready.{IsReady, with_masks}
use redis_keyspace_amqp.Config.Args.{
  Settings, arguments, mode_of, configured, half_configured, kept, reset, reset_masks-arguments,
  reset-kept, args_loop-settings, args_loop-rejected, args_loop-masks,
}

module _ {Db : Type 0} (key : ListKey Db) (env : Env) where
  abbrev pub changed : Config → System Db → System Db
  changed c s =
      setup_fallback_storage key (emit (Call.log "MODULE CONFIG CHANGED") (record s { config = c }))

  finish-changed :
      (stop : Bool) (c : Config) (arr : StringArray) (s : System Db)
      → finish_setup key (mask_progress c (stop, arr)) s
        ≡ (redismodule_ok, changed (record c { key_masks = arr }) s)
  finish-changed true c arr s = refl
  finish-changed false c arr s = refl

  -- A configuration by nine arguments and further ones as masks, with a delivery mode whose low 8
  -- bits read 0, 1 or 2, on a configuration that is ready (its strings can be freed and its array
  -- has room), with at most 2 ^ 31 masks, old and new: it ends without a fault, sets each of the
  -- nine in its order, replaces the masks if there are new ones, and reports success.
  pub setup_config-positions :
      (name : Bytes) (a : Settings) (masks : List Bytes) (s : System Db)
      → IsReady s.config
      → mode_of a ≤ 2
      → length s.config.key_masks.cells + length masks ≤ 2147483648
      → (arr : StringArray) × (setup_config key env (name ∷ arguments a masks) 1 s
          ≡ done (redismodule_ok, changed (configured a arr s.config) s))
        × (arr.cells ≡ masks_after (kept masks s.config.key_masks.cells) masks)
        × IsRoomy arr
  unfolding setup_config
  setup_config-positions name a masks s r mode small =
      let arr0 = reset masks s.config.key_masks in
      let (roomy, cells0, fewer) = reset-kept masks s.config.key_masks r.masks in
      let c0 = record s.config { key_masks = arr0 } in
      let c1 = configured a arr0 s.config in
      let (arr, stop, e, cells, r') =
        args_loop-masks env.allocator 9 masks c1 (omega arith) roomy
          (omega (arith, ap length cells0)) in
      (
        arr,
        rw
            (
              reset_masks-arguments a masks s.config,
              args_loop-settings env.allocator a masks c0 (with_masks arr0 roomy r) mode,
              e,
            )
            (ap done (finish-changed stop c1 arr s)),
        cells ∙ ap (λ cs. masks_after cs masks) cells0,
        r',
      )

  -- With another delivery mode the same arguments, on a configuration that is ready (its strings
  -- can be freed and its array has room), report an error; the seven settings in front of it are
  -- set, and the masks that were there are gone if new ones were given.
  pub setup_config-rejected :
      (name : Bytes) (a : Settings) (masks : List Bytes) (s : System Db)
      → IsReady s.config
      → 2 < mode_of a
      → (arr : StringArray) × (setup_config key env (name ∷ arguments a masks) 1 s
          ≡ done (
            redismodule_err,
            emit
                (Call.log "Wrong value for deliveryMode")
                (record s { config = half_configured a arr s.config }),
          ))
        × (arr.cells ≡ kept masks s.config.key_masks.cells)
  unfolding setup_config
  setup_config-rejected name a masks s r mode =
      let arr0 = reset masks s.config.key_masks in
      let (roomy, cells0, fewer) = reset-kept masks s.config.key_masks r.masks in
      let c0 = record s.config { key_masks = arr0 } in
      (
        arr0,
        rw
            (
              reset_masks-arguments a masks s.config,
              args_loop-rejected env.allocator a masks c0 (with_masks arr0 roomy r) mode,
            )
            refl,
        cells0,
      )
