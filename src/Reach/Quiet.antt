-- ===== src/Reach/Quiet.antt =====
-- What does not switch forwarding on (library.c, lines 27, 341 and 463-506): a message without `connect`.
use redis_keyspace_amqp.Base.{
  ℕ, ◌≡◌, ◌≢◌, refl, sym, subst, Option, none, some, ◌++◌, c_str, ◌==◌, List, Bytes,
}
use redis_keyspace_amqp.Memory.{Outcome, done, fault, ◌>>◌}
use redis_keyspace_amqp.System.{Env, System}
use redis_keyspace_amqp.Storage.{ListKey}
use redis_keyspace_amqp.Config.{keymask_clean_command}
use redis_keyspace_amqp.Command.{cluster_message_type_cmd}
use redis_keyspace_amqp.Wire.{serialized_string_to_redis_args}
use redis_keyspace_amqp.Wire.Fields.{fields, decode-fields}
use redis_keyspace_amqp.Cluster.{cluster_message_receiver}
use redis_keyspace_amqp.Cluster.Dispatch
use redis_keyspace_amqp.Cluster.Dispatch.{Repeated, received}
use redis_keyspace_amqp.Cluster.Carry.{known, carry_known, dispatch_args-carry}
use redis_keyspace_amqp.Reach.{Entry, connect, cluster_message}
use redis_keyspace_amqp.Reach.Plain.{Ends, Ends-bind, Ends-if}
use redis_keyspace_amqp.Command.Off.{Off, OffResult, disconnect-Off, config-Off, size-Off, add-Off}

-- All but `connect`, of a client or another node.
abbrev pub IsQuiet : Entry → Type 0
IsQuiet (connect argv) = ⊥
IsQuiet (cluster_message type payload beyond) =
    known (fields (c_str (payload ++ beyond))) ≢ some Dispatch.connect
IsQuiet _ = Unit

module _ {Db : Type 0} (key : ListKey Db) (env : Env) where
  -- If decoding ends, it gives the fields.
  decode-Ends :
      (text : Bytes)
      → Ends
          (λ args. args ≡ fields (c_str text))
          (serialized_string_to_redis_args env.allocator text)
  decode-Ends text = rw (decode-fields env.allocator text) (only _)
    where
      only :
          (o : Outcome Unit)
          → Ends (λ args. args ≡ fields (c_str text)) (o >> done (fields (c_str text)))
      only (done u) = refl
      only fault = tt

  known-Off :
      (o : Option Repeated) (argv : List Bytes) (s : System Db)
      → o ≢ some Dispatch.connect
      → Off s
      → Ends Off (carry_known key env o argv s)
  unfolding keymask_clean_command
  known-Off none argv s q off = off
  known-Off (some Dispatch.connect) argv s q off = absurd (q refl)
  known-Off (some Dispatch.disconnect) argv s q off = disconnect-Off argv s
  known-Off (some Dispatch.config) argv s q off =
      Ends-bind OffResult Off _ _ (config-Off key env argv s off) λ r o. o
  known-Off (some Dispatch.storage_size) argv s q off = size-Off key env argv s off
  known-Off (some Dispatch.keymask_clean) argv s q off = off
  known-Off (some Dispatch.keymask_add) argv s q off =
      Ends-bind OffResult Off _ _ (add-Off key env argv s off) λ r o. o

  pub message-Off :
      (type : ℕ) (payload beyond : Bytes) (s : System Db)
      → known (fields (c_str (payload ++ beyond))) ≢ some Dispatch.connect
      → Off s
      → Ends Off (cluster_message_receiver key env type payload beyond s)
  unfolding cluster_message_receiver
  message-Off type payload beyond s q off =
      let s1 = received key env s in
      Ends-if Off (type == cluster_message_type_cmd) _ _
        (Ends-bind (λ argv. argv ≡ fields (c_str (payload ++ beyond))) Off
          (serialized_string_to_redis_args env.allocator (payload ++ beyond)) _
          (decode-Ends (payload ++ beyond))
          λ argv e. rw (dispatch_args-carry key env argv s1) (
            known-Off (known argv) argv s1 (subst (λ a. known a ≢ some Dispatch.connect) (sym e) q)
              off))
        off
