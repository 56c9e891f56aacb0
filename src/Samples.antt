-- ===== src/Samples.antt =====
-- A server, a broker and an allocator to run the code on.
use redis_keyspace_amqp.Base.{
  ℕ, ◌+◌, ◌≡◌, refl, ap, true, List, [], ◌∷◌, ◌++◌, Option, none, some, Bytes, codes, length, arith,
}
use redis_keyspace_amqp.Memory.{Allocator, heap}
use redis_keyspace_amqp.StringArray.{StringArray}
use redis_keyspace_amqp.StringArray.Growth.{IsRoomy}
use redis_keyspace_amqp.System.{
  Status, ok, connection_closed, timeout, closing, wait_ends, is_last, Config, Env, System, empty,
}
use redis_keyspace_amqp.Storage.{ListKey}
use redis_keyspace_amqp.Config.Ready.{IsReady}

-- An allocator that rounds every request up by 64 bytes, and one that gives just what is asked for.
abbrev pub roomy : Allocator
roomy = record { usable = λ n. n + 64; usable-le = λ n. omega arith }

abbrev pub tight : Allocator
tight = record { usable = λ n. n; usable-le = λ n. omega arith }

abbrev pop : List Bytes → Option Bytes × List Bytes
pop [] = (none, [])
pop (x ∷ xs) = (some x, xs)

-- A key that holds nothing else than its list.
abbrev pub list_key : ListKey (List Bytes)
list_key = record {
  elements = λ d. d;
  value_length = λ d. length d;
  list_pop_head = pop;
  list_push_head = λ x d. x ∷ d;
  list_push_tail = λ x d. d ++ x ∷ [];
  delete_key = λ d. [];
  value_length_lem = λ d. refl;
  pop_nil = λ d e. (ap (λ xs. (pop xs).0) e, ap (λ xs. (pop xs).1) e);
  pop_cons = λ d x xs e. (ap (λ ys. (pop ys).0) e, ap (λ ys. (pop ys).1) e);
  push_head_lem = λ x d. refl;
  push_tail_lem = λ x d. refl;
  delete_lem = λ d. refl;
}

pub times_out : is_last (timeout, empty) ≡ true
unfolding closing wait_ends
times_out = refl

-- A master in a cluster, on a network where every call succeeds but the publishes give `st`.
abbrev pub broker : Status → Env
broker st = record {
  allocator = roomy;
  new_connection = λ t. some 1;
  tcp_socket_new = λ t. true;
  socket_open = λ t. 0;
  login = λ t. true;
  rpc_reply = λ t. true;
  incoming = λ t. record { replies = λ i. (timeout, empty); rounds = 0; ends = times_out };
  basic_publish = λ t. st;
  create_timer = λ t. 7;
  context_flags = λ t. 36;
  selected_db = λ t. 3;
  module_init = λ t. true;
  create_command = λ t. true;
  publish_flags = 36864;
}

abbrev pub up : Env
up = broker ok

-- The same master outside a cluster.
abbrev pub alone : Env
alone = record up { context_flags = λ t. 4 }

-- A replica in a cluster.
abbrev pub replica : Env
replica = record up { context_flags = λ t. 40 }

abbrev pub down : Env
down = broker connection_closed

abbrev pub masks : StringArray
masks = record {
  size = 2;
  capacity = 8;
  block = 72;
  cells = codes "^user:.*$" ∷ codes "session" ∷ [];
}

abbrev pub config : Config
config = record {
  hostname = heap (codes "127.0.0.1");
  port = 5672;
  username = heap (codes "guest");
  password = heap (codes "guest");
  heartbeat = 30;
  exchange = record { len = 10; bytes = heap (codes "amq.direct") };
  routing_key = record { len = 6; bytes = heap (codes "events") };
  publish_props = record { flags = 36864; content_type = codes "text/plain"; delivery_mode = 1 };
  max_size = 5;
  key_masks = masks;
}

-- Two events are stored, of which the counter knows one.
abbrev pub server : Option ℕ → System (List Bytes)
server conn = record {
  config = config;
  conn = conn;
  timer_id = 0;
  enabled = true;
  storage_key = codes "storage";
  storage_len = 1;
  db = codes "first" ∷ codes "second" ∷ [];
  trace = [];
}

pub masks-IsRoomy : IsRoomy masks
masks-IsRoomy = record {
  counted = refl;
  within = omega arith;
  growable = omega arith;
  word = omega arith;
  room = omega arith;
}

pub config-IsReady : IsReady config
config-IsReady = record {
  hostname = tt;
  username = tt;
  password = tt;
  exchange = tt;
  routing_key = tt;
  masks = masks-IsRoomy;
}

abbrev pub command : List Bytes
command = codes "key_evt_amqp.keymask_add" ∷ codes "cart" ∷ codes "user" ∷ []

abbrev pub outage : List Bytes
outage = codes "a" ∷ codes "b" ∷ codes "c" ∷ []

abbrev pub parting : List Bytes
parting = codes "key_evt_amqp.disconnect" ∷ codes "now" ∷ []
