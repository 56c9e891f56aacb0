-- ===== src/Reach/Calls.antt =====
-- The entry points (library.c, lines 133-210, 410-461 and 463-506) end without a fault, on a node of
-- its own and on a node of a cluster, and leave the configuration ready.
use redis_keyspace_amqp.Base.{
  ℕ, ◌+◌, ◌*◌, ◌%◌, ◌≤◌, ◌≡◌, ◌≢◌, ◌⊎◌, refl, ◌∙◌, ap, Bool, false, List, [], ◌∷◌, ◌++◌, Bytes,
  c_str, length, ◌==◌, Bool-cases, inl, inr, arith,
}
use redis_keyspace_amqp.Memory.{Allocator, Outcome, done, ◌>>=◌, ptr_size, u64_mod}
use redis_keyspace_amqp.Wire.{total_len, join, redis_args_to_serialized_string}
use redis_keyspace_amqp.Wire.Fields.{fields}
use redis_keyspace_amqp.System.{Call, Env, System, emit}
use redis_keyspace_amqp.Storage.{ListKey}
use redis_keyspace_amqp.Event.{is_redis_cluster, check_frames_and_heartbeat}
use redis_keyspace_amqp.Command.{
  broadcast_redis_command, cluster_message_type_cmd, complain_if, keymask_set_redis_command,
}
use redis_keyspace_amqp.Cluster.{state_of, cluster_message_receiver}
use redis_keyspace_amqp.Cluster.Dispatch
use redis_keyspace_amqp.Cluster.Dispatch.{Repeated, received}
use redis_keyspace_amqp.Cluster.Carry.{CanRead, receiver-carry}
use redis_keyspace_amqp.Cluster.Bus.{entry_of, is_bad, bind-state_of, enter-local}
use redis_keyspace_amqp.Reach.{
  Entry, keyspace_event, timer, connect, disconnect, config_set, storage_size_set, keymask_clean,
  keymask_add, keymask_set, cluster_message, enter,
}
use redis_keyspace_amqp.Reach.Config.{on_keyspace_event-config, check_frames_and_heartbeat-config}
use redis_keyspace_amqp.Config.Ready.{IsReady}
use redis_keyspace_amqp.Reach.Ready.{EndsReady, state_of-Ready, same-Within, complain_if-config}
use redis_keyspace_amqp.Reach.Locals.{Fits, local_command-Ready, carry-Ready, keymask_set-Ready}

-- The words that an entry point is called with; those of a cluster message are the fields of its text.
abbrev pub arguments_of : Entry → List Bytes
arguments_of (connect argv) = argv
arguments_of (disconnect argv) = argv
arguments_of (config_set argv) = argv
arguments_of (storage_size_set argv) = argv
arguments_of (keymask_clean argv) = argv
arguments_of (keymask_add argv) = argv
arguments_of (keymask_set argv) = argv
arguments_of (cluster_message type payload beyond) = fields (c_str (payload ++ beyond))
arguments_of _ = []

-- The block that line 73 asks for holds the text.
abbrev pub CanSend : Allocator → List Bytes → Type 0
CanSend al argv =
    (argv ≢ []) × (length (join argv) + 1 ≤ al.usable ((ptr_size * total_len argv) % u64_mod))

encode-fits :
    (al : Allocator) (argv : List Bytes)
    → CanSend al argv
    → redis_args_to_serialized_string al argv ≡ done (join argv)
unfolding redis_args_to_serialized_string
encode-fits al [] (some_arg, room) = absurd (some_arg refl)
encode-fits al (a ∷ args) (some_arg, room) = ground arith

module _ {Db : Type 0} (key : ListKey Db) (env : Env) where
  -- The node is in no cluster, or the allocator leaves room for the text that it broadcasts.
  abbrev pub CanTell : List Bytes → Type 0
  CanTell argv = ((t : System Db) → is_redis_cluster env t ≡ false) ⊎ CanSend env.allocator argv

  -- What the allocator has to leave room for.
  abbrev pub HasRoom : Entry → Type 0
  HasRoom (keyspace_event event key_name) = Unit
  HasRoom timer = Unit
  HasRoom (cluster_message type payload beyond) = CanRead key env (payload ++ beyond)
  HasRoom e = CanTell (arguments_of e)

  broadcast-Ends :
      (argv : List Bytes) (s : System Db)
      → CanTell argv
      → (t : System Db) × (broadcast_redis_command env argv s ≡ done t) × (t.config ≡ s.config)
  unfolding broadcast_redis_command
  broadcast-Ends argv s (inl single) = (s, rw (single s) refl, refl)
  broadcast-Ends argv s (inr room) = elim (Bool-cases (is_redis_cluster env s)) [
    | inl cluster ↦ (
      emit (Call.send_cluster_message cluster_message_type_cmd (join argv)) s,
      rw (cluster, encode-fits env.allocator argv room) refl,
      refl,
    )
    | inr alone ↦ (s, rw alone refl, refl)
  ]

  -- A command: its broadcast, and what the node does for itself.
  told-Ready :
      (bad : Bool) (n : ℕ) (argv : List Bytes) (s : System Db) (f : System Db → Outcome (System Db))
      → CanTell argv
      → Fits key env n argv s
      → ((t : System Db) → Fits key env n argv t → EndsReady n (f t))
      → EndsReady n (broadcast_redis_command env argv (complain_if bad s) >>= f)
  told-Ready bad n argv s f room (ready, few, small) k =
      let (t, ends, same) = broadcast-Ends argv (complain_if bad s) room in
      let (ready1, few1) =
        same-Within {n = length s.config.key_masks.cells} (same ∙ complain_if-config bad s)
          (ready, omega arith) in
      rw ends (k t (ready1, omega arith, small))

  repeated-Ready :
      (c : Repeated) (n : ℕ) (argv : List Bytes) (s : System Db)
      → CanTell argv
      → Fits key env n argv s
      → EndsReady n (enter key env (entry_of c argv) s)
  repeated-Ready c n argv s room fits = rw (enter-local key env c argv s) (
      told-Ready (is_bad c argv) n argv s (Dispatch.local_command key env c argv) room fits
        λ t k. local_command-Ready key env c n argv t k)

  message-Ready :
      (type : ℕ) (payload beyond : Bytes) (n : ℕ) (s : System Db)
      → CanRead key env (payload ++ beyond)
      → Fits key env n (fields (c_str (payload ++ beyond))) s
      → EndsReady n (cluster_message_receiver key env type payload beyond s)
  message-Ready type payload beyond n s room fits =
      rw (receiver-carry key env type payload beyond s room)
        (elim (Bool-cases (type == cluster_message_type_cmd)) [
          | inl cmd ↦
              rw cmd (
                carry-Ready key env n (fields (c_str (payload ++ beyond))) (received key env s)
                  fits)
          | inr other ↦
              rw other
                (let (ready, few, small) = fits in (received key env s, refl, ready, omega arith))
        ])

  -- An entry point within a bound on the masks.
  enter-Ready :
      (e : Entry) (n : ℕ) (s : System Db)
      → HasRoom e
      → Fits key env n (arguments_of e) s
      → EndsReady n (enter key env e s)
  unfolding enter keymask_set_redis_command
  enter-Ready (keyspace_event event key_name) n s room (ready, few, small) =
      let (t, e, same) = on_keyspace_event-config env key event key_name s ready.masks.counted in
      let (ready1, few1) = same-Within {n = n} same (ready, omega arith) in
      (t, ap state_of e, ready1, few1)
  enter-Ready timer n s room (ready, few, small) =
      let (ready1, few1) =
        same-Within {n = n} (check_frames_and_heartbeat-config env key s) (ready, omega arith) in
      (check_frames_and_heartbeat key env s, refl, ready1, few1)
  enter-Ready (connect argv) n s room fits = repeated-Ready Dispatch.connect n argv s room fits
  enter-Ready (disconnect argv) n s room fits =
      repeated-Ready Dispatch.disconnect n argv s room fits
  enter-Ready (config_set argv) n s room fits = repeated-Ready Dispatch.config n argv s room fits
  enter-Ready (storage_size_set argv) n s room fits =
      repeated-Ready Dispatch.storage_size n argv s room fits
  enter-Ready (keymask_clean argv) n s room fits =
      repeated-Ready Dispatch.keymask_clean n argv s room fits
  enter-Ready (keymask_add argv) n s room fits =
      repeated-Ready Dispatch.keymask_add n argv s room fits
  enter-Ready (keymask_set argv) n s room fits = rw (bind-state_of _ _) (
      told-Ready _ n argv s _ room fits
        λ t k. state_of-Ready n _ (keymask_set-Ready key env n argv t k))
  enter-Ready (cluster_message type payload beyond) n s room fits =
      message-Ready type payload beyond n s room fits

  -- Every event, timer callback, command and cluster message, with any words, ends without a fault
  -- and leaves a configuration that is ready for the next call, with at most one mask more for each
  -- word, if it was ready before, the allocator leaves room for what the bus carries, and the masks
  -- with the words are at most 2 ^ 31.
  pub enter-IsReady :
      (e : Entry) (s : System Db)
      → HasRoom e
      → IsReady s.config
      → length s.config.key_masks.cells + length (arguments_of e) ≤ 2147483648
      → EndsReady (length s.config.key_masks.cells + length (arguments_of e)) (enter key env e s)
  enter-IsReady e s room ready small = enter-Ready e _ s room (ready, omega arith, small)
