-- ===== src/Config/Args.antt =====
-- The loop over the arguments of `setupConfig` (library.c, lines 234-284): its first nine rounds, and
-- the masks.
use redis_keyspace_amqp.Base.{
  ℕ, suc, ◌+◌, ◌%◌, ◌≤◌, ◌<◌, ◌≡◌, refl, sym, ◌∙◌, ap, Bool, true, false, List, [], ◌∷◌, ◌++◌,
  Bytes, c_str, length, length-append, append-nil, arith, ltb, Bool-cases, inl, inr,
}
use redis_keyspace_amqp.Memory.{done, Allocator, heap, AmqpBytes, u8_mod, u16_mod, u32_mod}
use redis_keyspace_amqp.StringArray.{StringArray, clean}
use redis_keyspace_amqp.StringArray.Growth.{IsRoomy, clean-IsRoomy}
use redis_keyspace_amqp.Strtol.{strtol}
use redis_keyspace_amqp.System.{Config}
use redis_keyspace_amqp.Config.{
  rejected, mask_progress, set_arg, setting_at, at_key_mask, args_loop, reset_masks,
}
use redis_keyspace_amqp.Config.Masks.{is_all, masks_after, masks_after_cons, mask_step-Stepped}
use redis_keyspace_amqp.Config.Ready.{IsReady, copy-Freeable, copy_amqp-Freeable}

abbrev pub string_of : Bytes → AmqpBytes
string_of arg = record { len = length (c_str arg); bytes = heap (c_str arg) }

-- The nine arguments in front of the masks, in their order.
pub record Settings : Type 0 where
  pub hostname : Bytes
  pub port : Bytes
  pub username : Bytes
  pub password : Bytes
  pub heartbeat : Bytes
  pub exchange : Bytes
  pub routing_key : Bytes
  pub delivery_mode : Bytes
  pub max_size : Bytes

abbrev pub arguments : Settings → List Bytes → List Bytes
arguments a masks =
    a.hostname ∷ a.port ∷ a.username ∷ a.password ∷ a.heartbeat ∷ a.exchange ∷ a.routing_key
    ∷ a.delivery_mode ∷ a.max_size ∷ masks

abbrev pub mode_of : Settings → ℕ
mode_of a = strtol (c_str a.delivery_mode) % u8_mod

-- The configuration that they describe.
abbrev pub configured : Settings → StringArray → Config → Config
configured a arr c = record c {
  hostname = heap (c_str a.hostname);
  port = strtol (c_str a.port) % u16_mod;
  username = heap (c_str a.username);
  password = heap (c_str a.password);
  heartbeat = strtol (c_str a.heartbeat) % u32_mod;
  exchange = string_of a.exchange;
  routing_key = string_of a.routing_key;
  publish_props = record c.publish_props { delivery_mode = mode_of a };
  max_size = strtol (c_str a.max_size);
  key_masks = arr;
}

-- What is set in front of the delivery mode.
abbrev pub half_configured : Settings → StringArray → Config → Config
half_configured a arr c = record c {
  hostname = heap (c_str a.hostname);
  port = strtol (c_str a.port) % u16_mod;
  username = heap (c_str a.username);
  password = heap (c_str a.password);
  heartbeat = strtol (c_str a.heartbeat) % u32_mod;
  exchange = string_of a.exchange;
  routing_key = string_of a.routing_key;
  key_masks = arr;
}

module _ (al : Allocator) where
  pub args_loop-settings :
      (a : Settings) (masks : List Bytes) (c : Config)
      → IsReady c
      → mode_of a ≤ 2
      → args_loop al 0 (arguments a masks) c ≡ args_loop al 9 masks (configured a c.key_masks c)
  unfolding args_loop set_arg
  args_loop-settings a masks c r mode =
      let m : ltb 2 (mode_of a) ≡ false = ground arith in
      rw
        (
          copy-Freeable a.hostname c.hostname r.hostname,
          copy-Freeable a.username c.username r.username,
          copy-Freeable a.password c.password r.password,
          copy_amqp-Freeable a.exchange c.exchange r.exchange,
          copy_amqp-Freeable a.routing_key c.routing_key r.routing_key,
          m,
        )
        refl

  pub args_loop-rejected :
      (a : Settings) (masks : List Bytes) (c : Config)
      → IsReady c
      → 2 < mode_of a
      → args_loop al 0 (arguments a masks) c ≡ done (rejected (half_configured a c.key_masks c))
  unfolding args_loop set_arg
  args_loop-rejected a masks c r mode =
      let m : ltb 2 (mode_of a) ≡ true = ground arith in
      rw
        (
          copy-Freeable a.hostname c.hostname r.hostname,
          copy-Freeable a.username c.username r.username,
          copy-Freeable a.password c.password r.password,
          copy_amqp-Freeable a.exchange c.exchange r.exchange,
          copy_amqp-Freeable a.routing_key c.routing_key r.routing_key,
          m,
        )
        refl

  -- The arguments from the tenth on are masks: the loop ends, stopped or not, with those of
  -- `masks_after`, and nothing else is changed.
  abbrev Masked : ℕ → List Bytes → Config → Type 0
  Masked i masks c =
      (arr : StringArray) × (stop : Bool) × (args_loop al i masks c
        ≡ done (mask_progress c (stop, arr)))
      × (arr.cells ≡ masks_after c.key_masks.cells masks)
      × IsRoomy arr

  pub args_loop-masks :
      (i : ℕ) (masks : List Bytes) (c : Config)
      → 9 ≤ i
      → IsRoomy c.key_masks
      → length c.key_masks.cells + length masks ≤ 2147483648
      → Masked i masks c
  unfolding args_loop set_arg
  args_loop-masks i [] c late r small =
      (c.key_masks, false, refl, sym (append-nil c.key_masks.cells), r)
  args_loop-masks i (m ∷ masks) c late r small =
      let mask : setting_at i ≡ at_key_mask = ground arith in
      let s = mask_step-Stepped al m c.key_masks r (omega arith) in
      elim (Bool-cases (is_all m)) [
        | inl is ↦ (s.after, true, rw (mask, s.steps, is), rw is (rw is at s.cells), s.roomy)
        | inr isnt ↦
            let cells : s.after.cells ≡ c.key_masks.cells ++ c_str m ∷ [] = rw isnt at s.cells in
            let (arr, stop, e, c', r') =
              args_loop-masks (suc i) masks (record c { key_masks = s.after }) (omega arith) s.roomy
                (omega (arith, ap length cells, length-append c.key_masks.cells (c_str m ∷ []))) in
            (
              arr,
              stop,
              rw (mask, s.steps, isnt) e,
              rw isnt (c' ∙ masks_after_cons c.key_masks.cells s.after.cells masks m cells),
              r',
            )
      ]

-- The masks in front of new ones: none, if there are new ones.
abbrev pub kept : List Bytes → List Bytes → List Bytes
kept [] cells = cells
kept (m ∷ masks) cells = []

abbrev pub reset : List Bytes → StringArray → StringArray
reset [] arr = arr
reset (m ∷ masks) arr = clean arr

pub reset_masks-arguments :
    (a : Settings) (masks : List Bytes) (c : Config)
    → reset_masks (arguments a masks) c ≡ record c { key_masks = reset masks c.key_masks }
reset_masks-arguments a [] c = refl
reset_masks-arguments a (m ∷ masks) c = ground arith

pub reset-kept :
    (masks : List Bytes) (arr : StringArray)
    → IsRoomy arr
    → IsRoomy (reset masks arr)
      × ((reset masks arr).cells ≡ kept masks arr.cells)
      × (length (kept masks arr.cells) ≤ length arr.cells)
reset-kept [] arr r = (r, refl, omega arith)
reset-kept (m ∷ masks) arr r = let (roomy, e) = clean-IsRoomy arr r in (roomy, e, omega arith)
