-- ===== src/Config/Fits.antt =====
-- The C types of the settings (library.c, lines 14-32): whatever the arguments are, a number that
-- `setupConfig` stores fits its variable.
use redis_keyspace_amqp.Base.{
  ℕ, suc, ◌%◌, ◌<◌, ◌≤◌, Bool, true, false, List, [], ◌∷◌, Bytes, c_str, length, ltb, arith,
  Bool-cases, inl, inr,
}
use redis_keyspace_amqp.Memory.{u8_mod, u16_mod, u32_mod, u64_mod, Outcome, done, ◌>>=◌, Allocator}
use redis_keyspace_amqp.StringArray.{StringArray}
use redis_keyspace_amqp.Strtol.{strtol}
use redis_keyspace_amqp.Strtol.Bounds.{strtol-lt}
use redis_keyspace_amqp.System.{Config, System}
use redis_keyspace_amqp.Config.{
  mask_step, Progress, go, stopped, rejected, mask_progress, set_delivery_mode, set_arg, after_arg,
  args_loop, reset_masks, Setting, setting_at, at_hostname, at_port, at_username, at_password,
  at_heartbeat, at_exchange, at_routing_key, at_delivery_mode, at_max_size, at_key_mask,
}
use redis_keyspace_amqp.Config.Setup.{config_of}
use redis_keyspace_amqp.Reach.Plain.{Ends, Ends-bind, Ends-any}

-- `port` is a uint16_t, `heartbeat` an unsigned int and `fallbackStorageMaxSize` a size_t. The
-- delivery mode is one of the two of AMQP, or 0.
pub record NumbersFit (port heartbeat mode size : ℕ) : Type 0 where
  pub port_lt : port < u16_mod
  pub heartbeat_lt : heartbeat < u32_mod
  pub mode_le : mode ≤ 2
  pub size_lt : size < u64_mod

abbrev pub Fits : Config → Type 0
Fits c = NumbersFit c.port c.heartbeat c.publish_props.delivery_mode c.max_size

-- `fallbackStorageLen` too is a size_t.
abbrev pub IsTyped : {Db : Type 0} → System Db → Type 0
IsTyped s = Fits s.config × (s.storage_len < u64_mod)

abbrev pub Fitting : Progress → Type 0
Fitting p = Fits (config_of p)

mask_progress-Fits : (c : Config) (r : Bool × StringArray) → Fits c → Fitting (mask_progress c r)
mask_progress-Fits c (true, arr) f = f
mask_progress-Fits c (false, arr) f = f

mode-Fits : (mode : ℕ) (c : Config) → Fits c → Fitting (set_delivery_mode mode c)
mode-Fits mode c f = elim (Bool-cases (ltb 2 mode)) [
  | inl wrong ↦ rw wrong f
  | inr right ↦ rw right (record {
    port_lt = f.port_lt;
    heartbeat_lt = f.heartbeat_lt;
    mode_le = ground arith;
    size_lt = f.size_lt;
  })
]

-- A setting whose value comes from a call that may fault.
text-Fits :
    {A : Type 0} (o : Outcome A) (p : A → Progress)
    → ((x : A) → Fitting (p x))
    → Ends Fitting (o >>= λ x. done (p x))
text-Fits o p f = Ends-bind (λ x. Unit) Fitting o _ (Ends-any _ o λ x. tt) λ x u. f x

module _ (al : Allocator) where
  set_arg-Fits :
      (i : Setting) (arg : Bytes) (c : Config) → Fits c → Ends Fitting (set_arg al i arg c)
  unfolding set_arg
  set_arg-Fits at_hostname arg c f = text-Fits _ _ λ t. f
  set_arg-Fits at_port arg c f = record {
    port_lt = omega arith;
    heartbeat_lt = f.heartbeat_lt;
    mode_le = f.mode_le;
    size_lt = f.size_lt;
  }
  set_arg-Fits at_username arg c f = text-Fits _ _ λ t. f
  set_arg-Fits at_password arg c f = text-Fits _ _ λ t. f
  set_arg-Fits at_heartbeat arg c f = record {
    port_lt = f.port_lt;
    heartbeat_lt = omega arith;
    mode_le = f.mode_le;
    size_lt = f.size_lt;
  }
  set_arg-Fits at_exchange arg c f = text-Fits _ _ λ t. f
  set_arg-Fits at_routing_key arg c f = text-Fits _ _ λ t. f
  set_arg-Fits at_delivery_mode arg c f = mode-Fits (strtol (c_str arg) % u8_mod) c f
  set_arg-Fits at_max_size arg c f = record {
    port_lt = f.port_lt;
    heartbeat_lt = f.heartbeat_lt;
    mode_le = f.mode_le;
    size_lt = strtol-lt (c_str arg);
  }
  set_arg-Fits at_key_mask arg c f =
      text-Fits (mask_step al arg c.key_masks) _ λ r. mask_progress-Fits c r f

  after_arg-Fits :
      (next : Config → Outcome Progress) (p : Progress)
      → ((c : Config) → Fits c → Ends Fitting (next c))
      → Fitting p
      → Ends Fitting (after_arg next p)
  after_arg-Fits next (go c) k f = k c f
  after_arg-Fits next (stopped c) k f = f
  after_arg-Fits next (rejected c) k f = f

  pub args_loop-Fits :
      (i : ℕ) (args : List Bytes) (c : Config) → Fits c → Ends Fitting (args_loop al i args c)
  unfolding args_loop
  args_loop-Fits i [] c f = f
  args_loop-Fits i (arg ∷ args) c f =
      Ends-bind Fitting Fitting (set_arg al (setting_at i) arg c) _
        (set_arg-Fits (setting_at i) arg c f)
        λ p fp.
          after_arg-Fits (args_loop al (suc i) args) p (λ c' fc. args_loop-Fits (suc i) args c' fc)
            fp

pub reset_masks-Fits : (args : List Bytes) (c : Config) → Fits c → Fits (reset_masks args c)
reset_masks-Fits args c f = elim (Bool-cases (ltb 9 (length args))) [
  | inl many ↦ rw many (f)
  | inr few ↦ rw few f
]
