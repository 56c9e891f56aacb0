-- ===== src/Config/Ready.antt =====
-- A configuration whose strings may be replaced and whose masks have room (library.c, lines 17-32).
use redis_keyspace_amqp.Base.{◌≡◌, refl, true, Bytes, c_str, length}
use redis_keyspace_amqp.Memory.{
  done, Text, null, literal, heap, AmqpBytes, copy_string_allocated, copy_amqp_string_allocated,
}
use redis_keyspace_amqp.StringArray.{StringArray}
use redis_keyspace_amqp.StringArray.Growth.{IsRoomy}
use redis_keyspace_amqp.System.{Config}

-- `RedisModule_Free` may be given the pointer.
abbrev pub Freeable : Text → Type 0
Freeable null = Unit
Freeable (literal s) = ⊥
Freeable (heap s) = Unit

-- Every string of the configuration may be replaced, and the array of masks has room.
pub record IsReady (c : Config) : Type 0 where
  pub hostname : Freeable c.hostname
  pub username : Freeable c.username
  pub password : Freeable c.password
  pub exchange : Freeable c.exchange.bytes
  pub routing_key : Freeable c.routing_key.bytes
  pub masks : IsRoomy c.key_masks

pub copy-Freeable :
    (arg : Bytes) (t : Text)
    → Freeable t
    → copy_string_allocated arg t true ≡ done (heap (c_str arg))
unfolding copy_string_allocated
copy-Freeable arg null h = refl
copy-Freeable arg (literal s) h = absurd h
copy-Freeable arg (heap s) h = refl

pub copy_amqp-Freeable :
    (arg : Bytes) (t : AmqpBytes)
    → Freeable t.bytes
    → copy_amqp_string_allocated arg t true
      ≡ done (record { len = length (c_str arg); bytes = heap (c_str arg) })
unfolding copy_amqp_string_allocated
copy_amqp-Freeable arg t h = rw (copy-Freeable arg t.bytes h)

pub with_masks :
    {c : Config} (arr : StringArray)
    → IsRoomy arr
    → IsReady c
    → IsReady (record c { key_masks = arr })
with_masks arr m r = record {
  hostname = r.hostname;
  username = r.username;
  password = r.password;
  exchange = r.exchange;
  routing_key = r.routing_key;
  masks = m;
}
