-- ===== src/Storage.antt =====
-- library.c, lines 34-104: the fallback storage, a Redis list of the events that did not reach the
-- broker. The Redis list itself is the server's: `ListKey` is its interface.
pub mod Drain
pub mod Push
pub mod Counter
use redis_keyspace_amqp.Base.{
  ℕ, zero, suc, ◌+◌, ◌-◌, ◌%◌, ◌≡◌, Bool, true, false, ◌&&◌, List, [], ◌∷◌, ◌++◌, Option, none,
  some, Bytes, ltb, leb, if◌then◌else◌, length, arith,
}
use redis_keyspace_amqp.Memory.{u64_mod}
use redis_keyspace_amqp.System.{Status, ok, Env, System}
use redis_keyspace_amqp.Amqp.{amqp_publish}

-- The module API on the key that holds the storage: `elements` is what the list shows, head
-- first. The laws are those of the API's documentation for a key that holds a list or nothing.
pub record ListKey (Db : Type 0) : Type 0 where
  pub elements : Db → List Bytes
  pub value_length : Db → ℕ
  pub list_pop_head : Db → Option Bytes × Db
  pub list_push_head : Bytes → Db → Db
  pub list_push_tail : Bytes → Db → Db
  pub delete_key : Db → Db
  pub value_length_lem : (d : Db) → value_length d ≡ length (elements d)
  pub pop_nil :
      (d : Db)
      → elements d ≡ []
      → ((list_pop_head d).0 ≡ none) × (elements (list_pop_head d).1 ≡ [])
  pub pop_cons :
      (d : Db) (x : Bytes) (xs : List Bytes)
      → elements d ≡ x ∷ xs
      → ((list_pop_head d).0 ≡ some x) × (elements (list_pop_head d).1 ≡ xs)
  pub push_head_lem : (x : Bytes) (d : Db) → elements (list_push_head x d) ≡ x ∷ elements d
  pub push_tail_lem : (x : Bytes) (d : Db) → elements (list_push_tail x d) ≡ elements d ++ x ∷ []
  pub delete_lem : (d : Db) → elements (delete_key d) ≡ []

-- REDISMODULE_OK, REDISMODULE_ERR
abbrev pub redismodule_ok : ℕ
redismodule_ok = 0

abbrev pub redismodule_err : ℕ
redismodule_err = 1

-- `fallbackStorageLen--` on a size_t
abbrev pub decrement : ℕ → ℕ
decrement n = (n + u64_mod - 1) % u64_mod

-- `x < 0` for a size_t, the test at lines 37, 78 and (negated) 97
abbrev pub size_lt_zero : ℕ → Bool
size_lt_zero x = ltb x 0

-- No size_t is below zero, so the code under that test is dead.
pub size_lt_zero-eq_false : (x : ℕ) → size_lt_zero x ≡ false
size_lt_zero-eq_false x = ground arith

module _ {Db : Type 0} (key : ListKey Db) (env : Env) where
  -- After the publish at line 53: go on with the next message, or put this one back.
  abbrev pub after_publish :
      Status → Bytes → System Db → (System Db → ℕ × System Db) → ℕ × System Db
  after_publish ok message s next = next (record s { storage_len = decrement s.storage_len })
  after_publish _ message s next =
      (redismodule_err, record s { db = key.list_push_head message s.db })

  abbrev pub publish_message : Bytes → System Db → Status × System Db
  publish_message message s =
      amqp_publish env s.config.exchange s.config.routing_key s.config.publish_props message s

  -- After the pop at line 49 or 62.
  abbrev pub after_pop : Option Bytes → System Db → (System Db → ℕ × System Db) → ℕ × System Db
  after_pop none s next = (redismodule_ok, record s { db = key.delete_key s.db })
  after_pop (some message) s next =
      let (st, s') = publish_message message s in after_publish st message s' next

  -- lines 49-68; `fuel` bounds the messages that are left.
  unfoldable pub publish_loop : ℕ → System Db → ℕ × System Db
  publish_loop zero s = (redismodule_err, s)
  publish_loop (suc fuel) s =
      let (popped, d) = key.list_pop_head s.db in
      after_pop popped (record s { db = d }) (publish_loop fuel)

  unfoldable pub publish_stored_events : System Db → ℕ × System Db
  unfolding publish_loop
  publish_stored_events s =
      if size_lt_zero s.config.max_size
      then (redismodule_ok, s)
      else publish_loop (key.value_length s.db + 1) s

module _ {Db : Type 0} (key : ListKey Db) where
  unfoldable pub sync_fallback_storage_len : System Db → System Db
  sync_fallback_storage_len s = record s { storage_len = key.value_length s.db % u64_mod }

  -- lines 88-90
  abbrev pub is_full : System Db → Bool
  is_full s = ltb 0 s.config.max_size && leb s.config.max_size s.storage_len

  unfoldable pub push_event_to_storage : Bytes → System Db → System Db
  push_event_to_storage message s =
      if size_lt_zero s.config.max_size
      then s
      else let d = if is_full s then (key.list_pop_head s.db).1 else s.db in
        record s { db = key.list_push_tail message d }

  -- Redis deletes no key that is open for reading alone (line 100), so the first branch does nothing.
  unfoldable pub setup_fallback_storage : System Db → System Db
  unfolding sync_fallback_storage_len
  setup_fallback_storage s =
      if size_lt_zero s.config.max_size then s else sync_fallback_storage_len s
