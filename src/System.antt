-- ===== src/System.antt =====
-- The globals of library.c (lines 13-32) as one state, what the code outside the repository
-- answers, and the record of the calls that the module makes to it.
use redis_keyspace_amqp.Base.{
  ℕ, Bool, List, [], ◌∷◌, ◌++◌, ◌≡◌, true, false, Option, none, some, Bytes, String,
}
use redis_keyspace_amqp.Memory.{Allocator, Text, AmqpBytes}
use redis_keyspace_amqp.StringArray.{StringArray}

-- librabbitmq's status codes, as far as the code tells them apart
pub data Status : Type 0 where
  ok timeout connection_closed : Status
  other : ℕ → Status

-- What an `amqp_frame_t` holds: `empty` is frame_type 0, `connection_close` and `channel_close` are
-- the two method frames that the code looks for, with their channel.
pub data Frame : Type 0 where
  empty heartbeat method content : Frame
  connection_close channel_close : ℕ → Frame

pub data CloseOk : Type 0 where
  connection_close_ok channel_close_ok : CloseOk

-- The two tests at lines 20 and 24 of amqp_connection.c, and the answer that each sends.
unfoldable pub closing : Frame → Option (CloseOk × ℕ)
closing (connection_close ch) = some (connection_close_ok, ch)
closing (channel_close ch) = some (channel_close_ok, ch)
closing _ = none

-- The loop's condition at line 28, negated.
unfoldable pub wait_ends : Status → Frame → Bool
wait_ends connection_closed f = true
wait_ends timeout f = true
wait_ends _ empty = true
wait_ends _ heartbeat = true
wait_ends _ _ = false

-- The loop makes no further call after a reply.
abbrev pub is_last : Status × Frame → Bool
is_last (st, f) = elim (closing f) [ some answer ↦ true | none ↦ wait_ends st f ]

-- What the successive calls of `amqp_simple_wait_frame_noblock` in one wait give, without end: a
-- status, and what the frame variable holds after the call, be it left from an earlier call or never
-- set. The code can spin on such replies. `ends` is the assumption that it does not: the reply after
-- `rounds` others, if not an earlier one, ends the wait.
pub record Incoming : Type 0 where
  pub replies : ℕ → Status × Frame
  pub rounds : ℕ
  pub ends : is_last (replies rounds) ≡ true

-- amqp_basic_properties_t
pub record Props : Type 0 where
  pub flags : ℕ
  pub content_type : Bytes
  pub delivery_mode : ℕ

-- Calls of librabbitmq on a connection, `basic_publish` with the status that it returned.
pub data AmqpCall : Type 0 where
  tcp_socket_new channel_open get_rpc_reply wait_frame_noblock : AmqpCall
  channel_close connection_close destroy_connection : AmqpCall
  socket_open : Bytes → ℕ → AmqpCall
  login : ℕ → Bytes → Bytes → AmqpCall
  send_method : CloseOk → ℕ → AmqpCall
  basic_publish : AmqpBytes → AmqpBytes → Props → Bytes → Status → AmqpCall

-- `log` has the format string without its arguments, `create_timer` the identifier returned.
pub data Call : Type 0 where
  new_connection : Option ℕ → Call
  amqp : Option ℕ → AmqpCall → Call
  log : String → Call
  create_timer : ℕ → ℕ → Call
  stop_timer : ℕ → Call
  reply_with_error reply_with_simple_string : Bytes → Call
  wrong_arity : Call
  send_cluster_message : ℕ → Bytes → Call
  module_init create_command : Bytes → Call
  subscribe_to_keyspace_events register_cluster_message_receiver : ℕ → Call

-- The newest call comes first.
abbrev pub Trace : Type 0
Trace = List Call

-- What the code outside the repository answers: any function of the calls made so far.
-- `new_connection` gives a handle or NULL, `tcp_socket_new` says whether a socket came back,
-- `socket_open` is 0 for success, `login` and `rpc_reply` say whether the reply was normal, and
-- `publish_flags` is librabbitmq's mark for the two properties that are set.
pub record Env : Type 0 where
  pub allocator : Allocator
  pub new_connection : Trace → Option ℕ
  pub tcp_socket_new : Trace → Bool
  pub socket_open : Trace → ℕ
  pub login : Trace → Bool
  pub rpc_reply : Trace → Bool
  pub incoming : Trace → Incoming
  pub basic_publish : Trace → Status
  pub create_timer : Trace → ℕ
  pub context_flags : Trace → ℕ
  pub selected_db : Trace → ℕ
  pub module_init : Trace → Bool
  pub create_command : Trace → Bool
  pub publish_flags : ℕ

-- What `setupConfig` sets.
pub record Config : Type 0 where
  pub hostname : Text
  pub port : ℕ
  pub username : Text
  pub password : Text
  pub heartbeat : ℕ
  pub exchange : AmqpBytes
  pub routing_key : AmqpBytes
  pub publish_props : Props
  pub max_size : ℕ
  pub key_masks : StringArray

-- `conn` is NULL or a handle. `db` is the Redis key of the fallback storage.
pub record System (Db : Type 0) : Type 0 where
  pub config : Config
  pub conn : Option ℕ
  pub timer_id : ℕ
  pub enabled : Bool
  pub storage_key : Bytes
  pub storage_len : ℕ
  pub db : Db
  pub trace : Trace

module _ {Db : Type 0} where
  abbrev pub emit : Call → System Db → System Db
  emit c s = record s { trace = c ∷ s.trace }

-- A message reached the broker when `amqp_basic_publish` took it.
abbrev pub body_of : Call → Option Bytes
body_of (amqp c (basic_publish e r p body ok)) = some body
body_of _ = none

abbrev pub snoc : List Bytes → Option Bytes → List Bytes
snoc xs none = xs
snoc xs (some x) = xs ++ x ∷ []

-- The delivered messages, oldest first.
unfoldable pub delivered : Trace → List Bytes
delivered [] = []
delivered (c ∷ t) = snoc (delivered t) (body_of c)

-- A call that a client, the timers, another node or Redis's tables see.
abbrev pub see : Call → Trace → Trace
see (new_connection h) t = t
see (amqp c call) t = t
see (log text) t = t
see c t = c ∷ t

unfoldable pub visible : Trace → Trace
visible [] = []
visible (c ∷ t) = see c (visible t)
