-- ===== src/Reach/Ready.antt =====
-- The parts of the commands (library.c, lines 347-392 and 410-461) leave the configuration ready.
use redis_keyspace_amqp.Base.{
  ℕ, ◌≤◌, ◌≡◌, refl, sym, ◌∙◌, ap, subst, Bool, true, false, List, [], ◌∷◌, Bytes, c_str, drop,
  length, ltb, arith,
}
use redis_keyspace_amqp.Memory.{Outcome, done}
use redis_keyspace_amqp.StringArray.{clean}
use redis_keyspace_amqp.StringArray.Growth.{clean-IsRoomy}
use redis_keyspace_amqp.Strtol.{strtol}
use redis_keyspace_amqp.System.{Config, System}
use redis_keyspace_amqp.Amqp.{amqp_disconnect}
use redis_keyspace_amqp.Amqp.Effects.{amqp_disconnect-Quiet}
use redis_keyspace_amqp.Storage.{ListKey}
use redis_keyspace_amqp.Config.{setup_fallback_storage_size_command, keymask_clean_command}
use redis_keyspace_amqp.Config.Ready.{IsReady, with_masks}
use redis_keyspace_amqp.Config.Setup.{ReadyWithin}
use redis_keyspace_amqp.Config.Size.{setup-config}
use redis_keyspace_amqp.Command.{
  complain_if, stop_timer, disconnect_answered, disconnect_reply, disconnect_amqp_command,
}
use redis_keyspace_amqp.Cluster.{state_of}

pub length-drop_one-le : (argv : List Bytes) → length (drop 1 argv) ≤ length argv
length-drop_one-le [] = omega arith
length-drop_one-le (a ∷ argv) = omega arith

-- A configuration that is ready for the next call, and has `n` masks at most.
abbrev pub Within : ℕ → Config → Type 0
Within n c = IsReady c × (length c.key_masks.cells ≤ n)

pub same-Within : {n : ℕ} {c d : Config} → d ≡ c → Within n c → Within n d
same-Within {n} e within = subst (Within n) (sym e) within

module _ {Db : Type 0} where
  abbrev pub EndsReady : ℕ → Outcome (System Db) → Type 0
  EndsReady n o =
      (t : System Db) × (o ≡ done t) × IsReady t.config × (length t.config.key_masks.cells ≤ n)

  pub state_of-Ready :
      (n : ℕ) (o : Outcome (ℕ × System Db)) → ReadyWithin n o → EndsReady n (state_of o)
  state_of-Ready n o (r, e, ready, within) = (r.1, ap state_of e, ready, within)

  pub complain_if-config : (bad : Bool) (s : System Db) → (complain_if bad s).config ≡ s.config
  complain_if-config true s = refl
  complain_if-config false s = refl

  stop_timer-config : (s : System Db) → (stop_timer s).config ≡ s.config
  unfolding stop_timer
  stop_timer-config s = ground arith

  disconnect_answered-config :
      (code : ℕ) (s : System Db) → (disconnect_answered code s).1.config ≡ s.config
  disconnect_answered-config code s = ground arith

  pub disconnect_amqp_command-config :
      (argv : List Bytes) (s : System Db) → (disconnect_amqp_command argv s).1.config ≡ s.config
  unfolding disconnect_amqp_command disconnect_reply
  disconnect_amqp_command-config argv s =
      let bad = ltb 1 (length argv) in
      let s2 = stop_timer (record (complain_if bad s) { enabled = false }) in
      disconnect_answered-config _ (amqp_disconnect s2).1
      ∙ (amqp_disconnect-Quiet s2).config
      ∙ stop_timer-config _
      ∙ complain_if-config bad s

  pub keymask_clean-Ready :
      (s : System Db) → IsReady s.config → Within 0 (keymask_clean_command s).1.config
  unfolding keymask_clean_command clean
  keymask_clean-Ready s ready = (
    with_masks (clean s.config.key_masks) (clean-IsRoomy s.config.key_masks ready.masks).0 ready,
    omega arith,
  )

  module _ (key : ListKey Db) where
    resized-Ready : (c : Config) (size : ℕ) → IsReady c → IsReady (record c { max_size = size })
    resized-Ready c size ready = record {
      hostname = ready.hostname;
      username = ready.username;
      password = ready.password;
      exchange = ready.exchange;
      routing_key = ready.routing_key;
      masks = ready.masks;
    }

    pub size_command-Ready :
        (n : ℕ) (argv : List Bytes) (s : System Db)
        → Within n s.config
        → Within n (setup_fallback_storage_size_command key argv s).1.config
    unfolding setup_fallback_storage_size_command
    size_command-Ready n [] s within = within
    size_command-Ready n (name ∷ []) s within = within
    size_command-Ready n (name ∷ arg ∷ []) s (ready, few) =
        let t = record s { config = record s.config { max_size = strtol (c_str arg) } } in
        same-Within (setup-config key t) (resized-Ready s.config (strtol (c_str arg)) ready, few)
    size_command-Ready n (name ∷ arg ∷ more ∷ args) s within = within
