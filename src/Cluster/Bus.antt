-- ===== src/Cluster/Bus.antt =====
-- Two nodes of a cluster (library.c, lines 133-210, 311-317 and 410-506): commands that clients give to
-- the first reach the second over the bus, in order and at any later time.
use redis_keyspace_amqp.Base.{
  ℕ, ◌≡◌, refl, sym, ◌∙◌, ap, Bool, true, false, List, [], ◌∷◌, Bytes, c_str, length, ltb, ◌==◌,
  if◌then◌else◌,
}
use redis_keyspace_amqp.Memory.{Outcome, done, fault, ◌>>=◌}
use redis_keyspace_amqp.Wire.{join}
use redis_keyspace_amqp.Wire.RoundTrip.{Sendable, HasRoom, encode-join}
use redis_keyspace_amqp.System.{Call, Env, System, emit}
use redis_keyspace_amqp.Storage.{ListKey}
use redis_keyspace_amqp.Event.{is_redis_cluster}
use redis_keyspace_amqp.Config.{
  setup_config, setup_fallback_storage_size_command, keymask_clean_command, keymask_add_command,
}
use redis_keyspace_amqp.Command.{
  connect_amqp_command, disconnect_amqp_command, cluster_message_type_cmd, broadcast_redis_command,
  complain_if, amqp_connect_redis_command, amqp_disconnect_redis_command,
  setup_config_redis_command, setup_fallback_storage_size_redis_command,
  keymask_clean_redis_command, keymask_add_redis_command,
}
use redis_keyspace_amqp.Cluster.{state_of}
use redis_keyspace_amqp.Cluster.Dispatch.{
  Repeated, connect, disconnect, config, storage_size, keymask_clean, keymask_add, name_of,
  received, receive, Carried, local_command, receive-repeats,
}
use redis_keyspace_amqp.Cluster.Settings.{apply, config_out-done, local-apply}
use redis_keyspace_amqp.Reach.{Entry, keyspace_event, timer, enter}
use redis_keyspace_amqp.Reach
use redis_keyspace_amqp.Reach.Ready.{complain_if-config}

abbrev pub entry_of : Repeated → List Bytes → Entry
entry_of connect argv = Reach.connect argv
entry_of disconnect argv = Reach.disconnect argv
entry_of config argv = Reach.config_set argv
entry_of storage_size argv = Reach.storage_size_set argv
entry_of keymask_clean argv = Reach.keymask_clean argv
entry_of keymask_add argv = Reach.keymask_add argv

-- What the handler complains of before the broadcast.
abbrev pub is_bad : Repeated → List Bytes → Bool
is_bad connect argv = false
is_bad disconnect argv = false
is_bad config argv = ltb (length argv) 2
is_bad storage_size argv = if length argv == 2 then false else true
is_bad keymask_clean argv = ltb 1 (length argv)
is_bad keymask_add argv = ltb (length argv) 2

module _ {Db : Type 0} where
  pub bind-state_of :
      (o : Outcome (System Db)) (f : System Db → Outcome (ℕ × System Db))
      → state_of (o >>= f) ≡ (o >>= λ t. state_of (f t))
  bind-state_of (done t) f = refl
  bind-state_of fault f = refl

  -- The text of the message that was sent last.
  abbrev pub last_text : Outcome (System Db) → Bytes
  last_text fault = []
  last_text (done s) = text_at s.trace
    where
      text_at : List Call → Bytes
      text_at (Call.send_cluster_message type text ∷ t) = text
      text_at _ = []

module _ {Db : Type 0} (key : ListKey Db) (env : Env) where
  -- The broadcast of a command.
  abbrev pub told : Repeated → List Bytes → System Db → Outcome (System Db)
  told c argv s = broadcast_redis_command env argv (complain_if (is_bad c argv) s)

  -- A command of a client is its broadcast and what the node does for itself.
  pub enter-local :
      (c : Repeated) (argv : List Bytes) (s : System Db)
      → enter key env (entry_of c argv) s ≡ (told c argv s >>= local_command key env c argv)
  unfolding enter amqp_connect_redis_command amqp_disconnect_redis_command
      setup_config_redis_command setup_fallback_storage_size_redis_command
      keymask_clean_redis_command keymask_add_redis_command
  enter-local connect argv s =
      bind-state_of (broadcast_redis_command env argv s) (connect_amqp_command key env argv)
  enter-local disconnect argv s =
      bind-state_of (broadcast_redis_command env argv s) λ t. done (disconnect_amqp_command argv t)
  enter-local config argv s = bind-state_of (told config argv s) (setup_config key env argv 1)
  enter-local storage_size argv s =
      bind-state_of (told storage_size argv s)
        λ t. done (setup_fallback_storage_size_command key argv t)
  enter-local keymask_clean argv s =
      bind-state_of (told keymask_clean argv s) λ t. done (keymask_clean_command t)
  enter-local keymask_add argv s =
      bind-state_of (told keymask_add argv s) (keymask_add_command env argv)

  -- The conditions under which a command is sent as the text that the round trip needs.
  abbrev pub IsSent : List Bytes → Type 0
  IsSent argv = Sendable argv × HasRoom env.allocator argv

  pub told-join :
      (c : Repeated) (argv : List Bytes) (s : System Db)
      → is_redis_cluster env (complain_if (is_bad c argv) s) ≡ true
      → IsSent argv
      → told c argv s
        ≡ done (
            emit
              (Call.send_cluster_message cluster_message_type_cmd (join argv))
              (complain_if (is_bad c argv) s))
  unfolding broadcast_redis_command
  told-join c argv s cluster (sendable, room) =
      rw (cluster, encode-join env.allocator argv sendable room) refl

  -- What a command of a client does to the settings.
  pub enter-apply :
      (c : Repeated) (argv : List Bytes) (s t : System Db)
      → is_redis_cluster env (complain_if (is_bad c argv) s) ≡ true
      → IsSent argv
      → enter key env (entry_of c argv) s ≡ done t
      → apply env.allocator c argv s.config ≡ done t.config
  enter-apply c argv s t cluster sent ends =
      let u = complain_if (is_bad c argv) s in
      let v = emit (Call.send_cluster_message cluster_message_type_cmd (join argv)) u in
      let here : local_command key env c argv v ≡ done t =
        ap (λ o. o >>= local_command key env c argv) (sym (told-join c argv s cluster sent))
        ∙ sym (enter-local c argv s)
        ∙ ends in
      ap (apply env.allocator c argv) (sym (complain_if-config (is_bad c argv) s))
      ∙ config_out-done (local_command key env c argv v) t _ (local-apply key env c argv v) here

  -- What a message does to the settings of the node that receives it.
  pub receive-apply :
      (c : Repeated) (args : List Bytes) (s t : System Db)
      → Carried key env (name_of c ∷ args)
      → (beyond : Bytes) → c_str beyond ≡ []
      → receive key env (join (name_of c ∷ args)) beyond s ≡ done t
      → apply env.allocator c (name_of c ∷ args) s.config ≡ done t.config
  receive-apply c args s t carried beyond ended ends =
      let argv = name_of c ∷ args in
      config_out-done (local_command key env c argv (received key env s)) t _
        (local-apply key env c argv (received key env s))
        (sym (receive-repeats key env c args s carried beyond ended) ∙ ends)
