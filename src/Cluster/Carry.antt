-- ===== src/Cluster/Carry.antt =====
-- What a node does with any message from the cluster bus (library.c, lines 463-506), by a table of
-- the commands that it knows.
use redis_keyspace_amqp.Base.{
  ℕ, ◌*◌, ◌≤◌, ◌≡◌, refl, Bool, true, false, Option, none, some, List, [], ◌∷◌, ◌++◌, Bytes, c_str,
  bytes_eq, ◌==◌, if◌then◌else◌, length,
}
use redis_keyspace_amqp.Memory.{Outcome, done, ptr_size}
use redis_keyspace_amqp.Wire.Fields.{fields, decode-fits}
use redis_keyspace_amqp.System.{Env, System}
use redis_keyspace_amqp.Storage.{ListKey}
use redis_keyspace_amqp.Command.{cluster_message_type_cmd}
use redis_keyspace_amqp.Cluster.{
  redis_command_connect, redis_command_disconnect, redis_command_config,
  redis_command_fallback_storage_size, redis_command_keymask_clean, redis_command_keymask_add,
  dispatch, dispatch_args, cluster_message_receiver,
}
use redis_keyspace_amqp.Cluster.Dispatch.{
  Repeated, connect, disconnect, config, storage_size, keymask_clean, keymask_add, name_of,
  received, local_command,
}

abbrev every_repeated : List Repeated
every_repeated = connect ∷ disconnect ∷ config ∷ storage_size ∷ keymask_clean ∷ keymask_add ∷ []

abbrev first_named : Bytes → List Repeated → Option Repeated
first_named name [] = none
first_named name (c ∷ cs) = if bytes_eq name (name_of c) then some c else first_named name cs

abbrev pub known : List Bytes → Option Repeated
known [] = none
known (name ∷ args) = first_named (c_str name) every_repeated

module _ {Db : Type 0} (key : ListKey Db) (env : Env) where
  abbrev pub carry_known : Option Repeated → List Bytes → System Db → Outcome (System Db)
  carry_known none argv s = done s
  carry_known (some c) argv s = local_command key env c argv s

  -- The command that the first field names, if the node knows it.
  abbrev pub carry : List Bytes → System Db → Outcome (System Db)
  carry argv s = carry_known (known argv) argv s

  known-if :
      (b : Bool) (c : Repeated) (rest : Option Repeated) (argv : List Bytes) (s : System Db)
      (other : Outcome (System Db))
      → other ≡ carry_known rest argv s
      → (if b then local_command key env c argv s else other)
        ≡ carry_known (if b then some c else rest) argv s
  known-if true c rest argv s other e = refl
  known-if false c rest argv s other e = e

  -- The last two tests compare with the same name, so the second of them never holds.
  known-twice :
      (b : Bool) (argv : List Bytes) (s : System Db) (again : Outcome (System Db))
      → (if b then local_command key env keymask_add argv s else if b then again else done s)
        ≡ carry_known (if b then some keymask_add else none) argv s
  known-twice true argv s again = refl
  known-twice false argv s again = refl

  dispatch-carry :
      (name : Bytes) (argv : List Bytes) (s : System Db)
      → dispatch key env name argv s ≡ carry_known (first_named name every_repeated) argv s
  unfolding dispatch
  dispatch-carry name argv s =
      let is : Bytes → Bool = bytes_eq name in
      known-if (is redis_command_connect) connect _ argv s _ (
        known-if (is redis_command_disconnect) disconnect _ argv s _ (
          known-if (is redis_command_config) config _ argv s _ (
            known-if (is redis_command_fallback_storage_size) storage_size _ argv s _ (
              known-if (is redis_command_keymask_clean) keymask_clean _ argv s _
                (known-twice (is redis_command_keymask_add) argv s _)))))

  -- The receiver can read `text`: a pointer for each field fits its blocks.
  abbrev pub CanRead : Bytes → Type 0
  CanRead text =
      (ptr_size * length (fields (c_str text)) ≤ env.allocator.usable ptr_size)
      × (ptr_size ≤ env.allocator.usable 0)

  pub dispatch_args-carry :
      (argv : List Bytes) (s : System Db) → dispatch_args key env argv s ≡ carry argv s
  dispatch_args-carry [] s = refl
  dispatch_args-carry (name ∷ args) s = dispatch-carry (c_str name) (name ∷ args) s

  -- A node that receives any message, whatever stands in the payload and behind it, does what the
  -- command that the first field names does for a client after the broadcast, with the fields as its
  -- words, if the message has the module's type: one of six commands, and nothing for any other name or
  -- for no field. A message of another type is only logged. The fields are those of the text up to
  -- the first NUL, and the allocator has to leave room for them.
  pub receiver-carry :
      (type : ℕ) (payload beyond : Bytes) (s : System Db)
      → CanRead (payload ++ beyond)
      → cluster_message_receiver key env type payload beyond s ≡ (
          if type == cluster_message_type_cmd
          then carry (fields (c_str (payload ++ beyond))) (received key env s)
          else done (received key env s))
  unfolding cluster_message_receiver
  receiver-carry type payload beyond s (fit, first) =
      rw
        (
          decode-fits env.allocator (payload ++ beyond) fit first,
          dispatch_args-carry (fields (c_str (payload ++ beyond))) (received key env s),
        )
        refl
