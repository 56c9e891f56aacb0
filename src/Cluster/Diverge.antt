-- ===== src/Cluster/Diverge.antt =====
-- `keymask_set` on a node of a cluster, and what its message does on another (library.c, lines 311-317
-- and 451-506).
use redis_keyspace_amqp.Base.{
  ◌≤◌, ◌≡◌, refl, sym, ◌∙◌, ap, subst, true, c_str, List, [], ◌∷◌, Bytes, length, ltb, arith,
}
use redis_keyspace_amqp.Memory.{done}
use redis_keyspace_amqp.Wire.{join}
use redis_keyspace_amqp.Wire.RoundTrip.{HasRoom, encode-join}
use redis_keyspace_amqp.StringArray.Growth.{IsRoomy, clean-IsRoomy}
use redis_keyspace_amqp.System.{Call, Config, Env, System, emit}
use redis_keyspace_amqp.Storage.{ListKey}
use redis_keyspace_amqp.Event.{is_redis_cluster}
use redis_keyspace_amqp.Config.{keymask_clean_command}
use redis_keyspace_amqp.Config.Masks.{masks_after, keymask_add_command-after}
use redis_keyspace_amqp.Command.{
  broadcast_redis_command, cluster_message_type_cmd, complain_if, keymask_set_redis_command,
}
use redis_keyspace_amqp.Cluster.{redis_command_keymask_set}
use redis_keyspace_amqp.Cluster.Dispatch.{received, receive, Carried, receive-keymask_set}
use redis_keyspace_amqp.Reach.Ready.{complain_if-config}
use redis_keyspace_amqp.Reach.{keymask_set, enter}

module _ {Db : Type 0} (key : ListKey Db) (sender receiver : Env) where
  abbrev pub whole : List Bytes → List Bytes
  whole args = redis_command_keymask_set ∷ args

  abbrev pub complained : List Bytes → System Db → System Db
  complained args s = complain_if (ltb (length (whole args)) 2) s

  abbrev sent : List Bytes → System Db → System Db
  sent args s =
      emit (Call.send_cluster_message cluster_message_type_cmd (join (whole args)))
        (complained args s)

  sends :
      (args : List Bytes) (s : System Db)
      → is_redis_cluster sender (complained args s) ≡ true
      → HasRoom sender.allocator (whole args)
      → Carried key receiver (whole args)
      → broadcast_redis_command sender (whole args) (complained args s) ≡ done (sent args s)
  unfolding broadcast_redis_command
  sends args s cluster room carried =
      rw (cluster, encode-join sender.allocator (whole args) carried.0 room) refl

  -- A node of a cluster that is given keymask_set, in words without NUL and newline, the last not
  -- empty, for which the allocators have room, broadcasts it and ends with the words as its masks,
  -- or ALL alone if that is one of them, as long as its array has room and there are at most 2 ^ 31
  -- words; a node that receives the message, with a NUL or nothing right behind the payload, keeps
  -- all that it had.
  pub keymask_set-diverges :
      (args : List Bytes) (s t : System Db)
      → is_redis_cluster sender (complained args s) ≡ true
      → HasRoom sender.allocator (whole args)
      → Carried key receiver (whole args)
      → IsRoomy s.config.key_masks
      → length (whole args) ≤ 2147483648
      → (beyond : Bytes) → c_str beyond ≡ []
      → (s' : System Db) × (enter key sender (keymask_set (whole args)) s ≡ done s')
        × (s'.config.key_masks.cells ≡ masks_after [] (whole args))
        × (s'.trace
            ≡ Call.send_cluster_message cluster_message_type_cmd (join (whole args))
              ∷ (complained args s).trace)
        × (receive key receiver (join (whole args)) beyond t ≡ done (received key receiver t))
  unfolding enter keymask_set_redis_command keymask_clean_command
  keymask_set-diverges args s t cluster room carried roomy few beyond ended =
      let argv = whole args in
      let u = sent args s in
      let same = complain_if-config (ltb (length argv) 2) s in
      let (clear, none_left) =
        clean-IsRoomy u.config.key_masks
          (subst (λ (c : Config). IsRoomy c.key_masks) (sym same) roomy) in
      let (arr, adds, cells, _) =
        keymask_add_command-after sender argv (keymask_clean_command u).1 clear
          (omega (arith, ap (λ xs. length xs) none_left)) in
      (
        record u { config = record u.config { key_masks = arr } },
        rw (sends args s cluster room carried, adds) refl,
        cells ∙ ap (λ xs. masks_after xs argv) none_left,
        refl,
        receive-keymask_set key receiver args t carried beyond ended,
      )
