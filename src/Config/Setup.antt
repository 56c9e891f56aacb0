-- ===== src/Config/Setup.antt =====
-- `setupConfig` (library.c, lines 226-292) never faults, and keeps the configuration ready for the
-- next call.
use redis_keyspace_amqp.Base.{
  ℕ, suc, ◌+◌, ◌-◌, ◌%◌, ◌≤◌, ◌<◌, ◌≡◌, refl, sym, ap, subst, List, [], ◌∷◌, ◌++◌, Bytes, c_str,
  length, length-append, arith, Bool-cases, inl, inr, ltb, drop,
}
use redis_keyspace_amqp.Memory.{u8_mod, Outcome, done, ◌>>=◌, Allocator, heap}
use redis_keyspace_amqp.StringArray.Growth.{clean-IsRoomy}
use redis_keyspace_amqp.Strtol.{strtol}
use redis_keyspace_amqp.System.{Config, Env, System}
use redis_keyspace_amqp.Storage.{ListKey, setup_fallback_storage, redismodule_ok}
use redis_keyspace_amqp.Event.{key_mask_all}
use redis_keyspace_amqp.Config.{
  mask_step, Progress, go, stopped, rejected, mask_progress, set_delivery_mode, set_arg, after_arg,
  args_loop, reset_masks, finish_setup, setup_args, setup_config, at_hostname, at_port, at_username,
  at_password, at_heartbeat, at_exchange, at_routing_key, at_delivery_mode, at_max_size,
  at_key_mask, Setting, setting_at,
}
use redis_keyspace_amqp.Config.Masks.{is_all, mask_step-Stepped}
use redis_keyspace_amqp.Config.Ready.{IsReady, copy-Freeable, copy_amqp-Freeable, with_masks}

abbrev pub config_of : Progress → Config
config_of (go c) = c
config_of (stopped c) = c
config_of (rejected c) = c

-- The configuration after an argument is ready, and has one mask more at most.
abbrev Advances : Config → Outcome Progress → Type 0
Advances c o =
    (p : Progress) × (o ≡ done p)
    × IsReady (config_of p)
    × (length (config_of p).key_masks.cells ≤ length c.key_masks.cells + 1)

module _ (al : Allocator) where
  mask-Advances :
      (arg : Bytes) (c : Config)
      → IsReady c
      → length c.key_masks.cells < 2147483648
      → Advances c (mask_step al arg c.key_masks >>= λ r. done (mask_progress c r))
  mask-Advances arg c r small =
      let s = mask_step-Stepped al arg c.key_masks r.masks small in
      rw s.steps (elim (Bool-cases (is_all arg)) [
        | inl is ↦
            let one : s.after.cells ≡ key_mask_all ∷ [] = rw is at s.cells in
            (
              stopped (record c { key_masks = s.after }),
              rw is,
              with_masks s.after s.roomy r,
              omega (arith, ap length one),
            )
        | inr isnt ↦
            let more : s.after.cells ≡ c.key_masks.cells ++ c_str arg ∷ [] = rw isnt at s.cells in
            (
              go (record c { key_masks = s.after }),
              rw isnt,
              with_masks s.after s.roomy r,
              omega (arith, ap length more, length-append c.key_masks.cells (c_str arg ∷ [])),
            )
      ])

  delivery-Advances :
      (mode : ℕ) (c : Config) → IsReady c → Advances c (done (set_delivery_mode mode c))
  delivery-Advances mode c r = (set_delivery_mode mode c, refl, ground arith, ground arith)

  set_arg-Advances :
      (i : Setting) (arg : Bytes) (c : Config)
      → IsReady c
      → length c.key_masks.cells < 2147483648
      → Advances c (set_arg al i arg c)
  unfolding set_arg
  set_arg-Advances at_hostname arg c r small = (
    go (record c { hostname = heap (c_str arg) }),
    rw (copy-Freeable arg c.hostname r.hostname),
    ground arith,
    omega arith,
  )
  set_arg-Advances at_port arg c r small = (go _, refl, ground arith, omega arith)
  set_arg-Advances at_username arg c r small = (
    go (record c { username = heap (c_str arg) }),
    rw (copy-Freeable arg c.username r.username),
    ground arith,
    omega arith,
  )
  set_arg-Advances at_password arg c r small = (
    go (record c { password = heap (c_str arg) }),
    rw (copy-Freeable arg c.password r.password),
    ground arith,
    omega arith,
  )
  set_arg-Advances at_heartbeat arg c r small = (go _, refl, ground arith, omega arith)
  set_arg-Advances at_exchange arg c r small = (
    go (record c { exchange = record { len = length (c_str arg); bytes = heap (c_str arg) } }),
    rw (copy_amqp-Freeable arg c.exchange r.exchange),
    ground arith,
    omega arith,
  )
  set_arg-Advances at_routing_key arg c r small = (
    go (record c { routing_key = record { len = length (c_str arg); bytes = heap (c_str arg) } }),
    rw (copy_amqp-Freeable arg c.routing_key r.routing_key),
    ground arith,
    omega arith,
  )
  set_arg-Advances at_delivery_mode arg c r small =
      delivery-Advances (strtol (c_str arg) % u8_mod) c r
  set_arg-Advances at_max_size arg c r small = (go _, refl, ground arith, omega arith)
  set_arg-Advances at_key_mask arg c r small = mask-Advances arg c r small

  -- The loop ends with a ready configuration that has `n` masks at most.
  abbrev Ends : ℕ → Outcome Progress → Type 0
  Ends n o =
      (p : Progress) × (o ≡ done p)
      × IsReady (config_of p)
      × (length (config_of p).key_masks.cells ≤ n)

  after_arg-Ends :
      (n m : ℕ) (next : Config → Outcome Progress) (p : Progress)
      → ((c : Config) → IsReady c → length c.key_masks.cells ≤ m → Ends n (next c))
      → m ≤ n
      → IsReady (config_of p)
      → length (config_of p).key_masks.cells ≤ m
      → Ends n (after_arg next p)
  after_arg-Ends n m next (go c) ih le r k = ih c r k
  after_arg-Ends n m next (stopped c) ih le r k = (stopped c, refl, r, omega arith)
  after_arg-Ends n m next (rejected c) ih le r k = (rejected c, refl, r, omega arith)

  args_loop-Ends :
      (n i : ℕ) (args : List Bytes) (c : Config)
      → IsReady c
      → length c.key_masks.cells + length args ≤ n
      → n ≤ 2147483648
      → Ends n (args_loop al i args c)
  unfolding args_loop
  args_loop-Ends n i [] c r fits small = (go c, refl, r, omega arith)
  args_loop-Ends n i (arg ∷ args) c r fits small =
      let (p, e, r', k) = set_arg-Advances (setting_at i) arg c r (omega arith) in
      rw e (
        after_arg-Ends n (n - length args) (args_loop al (suc i) args) p
          (λ c' rc kc. args_loop-Ends n (suc i) args c' rc (omega arith) small) (omega arith) r'
          (omega arith))

reset_masks-IsReady :
    (args : List Bytes) (c : Config)
    → IsReady c
    → IsReady (reset_masks args c)
      × (length (reset_masks args c).key_masks.cells ≤ length c.key_masks.cells)
reset_masks-IsReady args c r =
    let (m, e) = clean-IsRoomy c.key_masks r.masks in
    elim (Bool-cases (ltb 9 (length args))) [
      | inl many ↦ rw many (with_masks _ m r, rw e (omega arith))
      | inr few ↦ rw few (r, omega arith)
    ]

module _ {Db : Type 0} where
  -- The call ends, with a ready configuration that has `n` masks at most.
  abbrev pub ReadyWithin : ℕ → Outcome (ℕ × System Db) → Type 0
  ReadyWithin n o =
      (r : ℕ × System Db) × (o ≡ done r)
      × IsReady r.1.config
      × (length r.1.config.key_masks.cells ≤ n)

module _ {Db : Type 0} (key : ListKey Db) (env : Env) where
  pub finish-config : (p : Progress) (s : System Db) → (finish_setup key p s).1.config ≡ config_of p
  unfolding setup_fallback_storage
  finish-config (go c) s = ground arith
  finish-config (stopped c) s = ground arith
  finish-config (rejected c) s = refl

  setup_args-IsReady :
      (args : List Bytes) (s : System Db)
      → IsReady s.config
      → length s.config.key_masks.cells + length args ≤ 2147483648
      → ReadyWithin
          (length s.config.key_masks.cells + length args)
          (setup_args key env.allocator args s)
  unfolding setup_fallback_storage
  setup_args-IsReady [] s r small =
      ((redismodule_ok, setup_fallback_storage key s), refl, ground arith, ground arith)
  setup_args-IsReady (arg ∷ args) s r small =
      let most = length s.config.key_masks.cells + length (arg ∷ args) in
      let (r0, n0) = reset_masks-IsReady (arg ∷ args) s.config r in
      let (p, e, r', n) =
        args_loop-Ends env.allocator most 0 (arg ∷ args) (reset_masks (arg ∷ args) s.config) r0
          (omega arith) small in
      let (ready, within) =
        subst (λ (c : Config). IsReady c × (length c.key_masks.cells ≤ most))
          (sym (finish-config p s)) (r', n) in
      (finish_setup key p s, rw e, ready, within)

  -- `setupConfig` ends without a fault for any arguments, and leaves a configuration that is ready
  -- for the next call: no string constant is freed and the masks stay inside their block, also on
  -- the error return, and at most one mask comes to them for each argument, if the configuration
  -- was ready before and the masks with the arguments are at most 2 ^ 31.
  pub setup_config-IsReady :
      (argv : List Bytes) (arg_offset : ℕ) (s : System Db)
      → IsReady s.config
      → length s.config.key_masks.cells + length (drop arg_offset argv) ≤ 2147483648
      → ReadyWithin
          (length s.config.key_masks.cells + length (drop arg_offset argv))
          (setup_config key env argv arg_offset s)
  unfolding setup_config
  setup_config-IsReady argv arg_offset s = setup_args-IsReady (drop arg_offset argv) s
