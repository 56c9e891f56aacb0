-- ===== src/Witness/Cluster.antt =====
-- A command on one concrete node of a cluster, and its message on another.
use redis_keyspace_amqp.Base.{
  ◌≡◌, refl, ◌∙◌, ap, true, List, [], ◌∷◌, none, some, Bytes, codes, c_str, arith,
}
use redis_keyspace_amqp.Memory.{done, ◌>>=◌}
use redis_keyspace_amqp.Wire.{join}
use redis_keyspace_amqp.System.{Call, System, emit}
use redis_keyspace_amqp.Event.{is_redis_cluster}
use redis_keyspace_amqp.Config.{setup_fallback_storage_size_command}
use redis_keyspace_amqp.Command.{cluster_message_type_cmd}
use redis_keyspace_amqp.Cluster.{redis_command_fallback_storage_size, redis_command_keymask_set}
use redis_keyspace_amqp.Cluster.Dispatch.{
  storage_size, received, receive, Carried, local_command, receive-repeats,
}
use redis_keyspace_amqp.Cluster.Bus.{told, told-join, IsSent, enter-local, entry_of}
use redis_keyspace_amqp.Cluster.Nodes.{Nodes, BusReaches, start, command}
use redis_keyspace_amqp.Cluster.Many
use redis_keyspace_amqp.Cluster.Many.{update, ClusterReaches, ClusterReaches-agrees}
use redis_keyspace_amqp.Cluster.Settle.{Settled, BusReaches-settles}
use redis_keyspace_amqp.Cluster.Diverge.{keymask_set-diverges}
use redis_keyspace_amqp.Config.Masks.{masks_after}
use redis_keyspace_amqp.Reach.{enter, keymask_set}
use redis_keyspace_amqp.Samples.{list_key, up, down, server, masks-IsRoomy}

abbrev resize : List Bytes
resize = redis_command_fallback_storage_size ∷ codes "7" ∷ []

abbrev told_state : System (List Bytes)
told_state = emit (Call.send_cluster_message cluster_message_type_cmd (join resize)) (server none)

abbrev teller : System (List Bytes)
teller = (setup_fallback_storage_size_command list_key resize told_state).1

abbrev listener : System (List Bytes)
listener =
    (setup_fallback_storage_size_command list_key resize
      (received list_key down (server (some 1)))).1

abbrev before : Nodes (List Bytes)
before = record { first = server none; second = server (some 1); bus = [] }

up-cluster : is_redis_cluster up (server none) ≡ true
unfolding is_redis_cluster
up-cluster = refl

resize-IsSent : IsSent list_key up resize
resize-IsSent = ((refl, (refl, λ e. cc)), omega arith)

resize-Carried : Carried list_key down resize
resize-Carried = ((refl, (refl, λ e. cc)), omega arith, omega arith)

tells : told list_key up storage_size resize (server none) ≡ done told_state
tells = told-join list_key up storage_size resize (server none) up-cluster resize-IsSent

teller_ends : enter list_key up (entry_of storage_size resize) (server none) ≡ done teller
teller_ends =
    enter-local list_key up storage_size resize (server none)
    ∙ ap (λ o. o >>= local_command list_key up storage_size resize) tells

-- A NUL, and more behind it.
nul_first : c_str (0 ∷ codes "9") ≡ []
unfolding c_str
nul_first = refl

listener_ends :
    receive list_key down (join resize) (0 ∷ codes "9") (server (some 1)) ≡ done listener
listener_ends =
    receive-repeats list_key down storage_size (codes "7" ∷ []) (server (some 1)) resize-Carried
      (0 ∷ codes "9") nul_first

-- The message is still on the bus.
abbrev waiting : Nodes (List Bytes)
waiting = record { first = teller; second = server (some 1); bus = join resize ∷ [] }

half_talk : BusReaches list_key up down before waiting
half_talk =
    command storage_size (codes "7" ∷ []) (join resize) up-cluster resize-IsSent resize-Carried
      tells teller_ends start

BusReaches-settles_example :
    (k : Nodes (List Bytes)) × Settled list_key up down (λ n. 0 ∷ codes "9") waiting k
BusReaches-settles_example =
    BusReaches-settles list_key up down refl refl refl half_talk (λ n. 0 ∷ codes "9")
      (λ n. nul_first)

keymask_set-diverges_example :
    let argv = redis_command_keymask_set ∷ codes "cart" ∷ [] in
    (s : System (List Bytes)) × (enter list_key up (keymask_set argv) (server none) ≡ done s)
    × (s.config.key_masks.cells ≡ masks_after [] argv)
    × (s.trace ≡ Call.send_cluster_message cluster_message_type_cmd (join argv) ∷ [])
    × (receive list_key down (join argv) (0 ∷ codes "9") (server (some 1))
        ≡ done (received list_key down (server (some 1))))
keymask_set-diverges_example =
    keymask_set-diverges list_key up down (codes "cart" ∷ []) (server none) (server (some 1))
      up-cluster (omega arith) ((refl, (refl, λ e. cc)), omega arith, omega arith) masks-IsRoomy
      (omega arith) (0 ∷ codes "9") nul_first

-- Any number of listeners, of which the third has heard.
abbrev many_before : Many.Cluster (List Bytes)
many_before = record { first = server none; node = λ i. server (some 1); bus = λ i. [] }

abbrev many_after : Many.Cluster (List Bytes)
many_after = record {
  first = teller;
  node = update (λ i. server (some 1)) 3 listener;
  bus = update (λ i. join resize ∷ []) 3 [];
}

many_talk : ClusterReaches list_key up (λ i. down) many_before many_after
many_talk =
    Many.command storage_size (codes "7" ∷ []) (join resize) up-cluster resize-IsSent
      (λ i. resize-Carried) tells teller_ends
      (Many.delivery 3 (join resize) (0 ∷ codes "9") [] refl nul_first listener_ends Many.start)

ClusterReaches-agrees_example : listener.config ≡ teller.config
ClusterReaches-agrees_example =
    ClusterReaches-agrees list_key up (λ i. down) (λ i. refl) (λ i. refl) (λ i. refl) many_talk 3
      refl
