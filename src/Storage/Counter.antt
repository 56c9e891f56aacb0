-- ===== src/Storage/Counter.antt =====
-- `fallbackStorageLen` (library.c, lines 30, 60 and 88): what the counter is after a drain.
use redis_keyspace_amqp.Base.{
  ℕ, zero, suc, ◌+◌, ◌-◌, ◌≤◌, ◌<◌, ◌≡◌, refl, sym, ◌∙◌, ap, true, List, [], ◌∷◌, ◌++◌, Bytes,
  length, arith, append-nil,
}
use redis_keyspace_amqp.Memory.{u64_mod}
use redis_keyspace_amqp.System.{Config, Env, System}
use redis_keyspace_amqp.Storage.{ListKey, redismodule_ok, decrement, is_full, publish_stored_events}
use redis_keyspace_amqp.Storage.Drain.{decrements, Drained, publish_stored_events-Drained}
use redis_keyspace_amqp.Storage.Push.{last, push_all, push_all-full}

-- The counter after more events were sent than it counted.
decrements-below : (n len : ℕ) → n ≤ len → len < u64_mod → decrements n len ≡ len - n
unfolding decrements
decrements-below zero len h k = omega arith
decrements-below (suc n) len h k =
    decrements-below n (decrement len) (omega arith) (omega arith) ∙ omega arith

decrements-wrap : (n len : ℕ) → len < n → n < u64_mod → decrements n len ≡ len + u64_mod - n
unfolding decrements
decrements-wrap zero len h k = absurd (omega arith)
decrements-wrap (suc n) zero h k =
    decrements-below n (decrement 0) (omega arith) (omega arith) ∙ omega arith
decrements-wrap (suc n) (suc len) h k =
    ap (decrements n) (omega arith)
    ∙ decrements-wrap n len (omega arith) (omega arith)
    ∙ omega arith

pub decrements-lt : (n len : ℕ) → len < u64_mod → decrements n len < u64_mod
unfolding decrements
decrements-lt zero len h = h
decrements-lt (suc n) len h = decrements-lt n (decrement len) (omega arith)

module _ {Db : Type 0} (key : ListKey Db) (env : Env) where
  ok-all_sent :
      {s : System Db} {r : ℕ × System Db} (d : Drained key env s r) (left : List Bytes)
      → d.left ≡ left
      → r.0 ≡ redismodule_ok
      → left ≡ []
  ok-all_sent d [] e h = refl
  ok-all_sent d (x ∷ xs) e h = let bad = (d.refused x xs e).0 in absurd (omega arith)

  module _ (s : System Db) (drained : (publish_stored_events key env s).0 ≡ redismodule_ok) where
    abbrev after : System Db
    after = (publish_stored_events key env s).1

    emptied :
        (key.elements after.db ≡ [])
        × (after.storage_len ≡ decrements (length (key.elements s.db)) s.storage_len)
    emptied =
        let d = publish_stored_events-Drained key env s in
        let none_left = ok-all_sent d d.left refl drained in
        let all_sent = d.splits ∙ ap (λ xs. d.sent ++ xs) none_left ∙ append-nil d.sent in
        (
          d.kept ∙ none_left,
          d.counted ∙ ap (λ xs. decrements (length {A = Bytes} xs) s.storage_len) (sym all_sent),
        )

    -- The storage is empty after a drain that returned OK. If the counter counted fewer messages
    -- than were stored, as it does when events were pushed since it was read, it has wrapped below
    -- zero; then, with any limit from 1 to 2 ^ 63, each later push drops the oldest message, so
    -- that of the events of the next outage the last alone is kept.
    pub drain-then-full :
        (event : Bytes) (events : List Bytes)
        → s.storage_len < length (key.elements s.db)
        → length (key.elements s.db) ≤ 9223372036854775808
        → 0 < s.config.max_size
        → s.config.max_size ≤ 9223372036854775808
        → (key.elements after.db ≡ [])
          × (key.elements (push_all key (event ∷ events) after).db ≡ last event events ∷ [])
    drain-then-full event events fewer few limited small =
        let d = publish_stored_events-Drained key env s in
        let wrapped =
          decrements-wrap (length (key.elements s.db)) s.storage_len fewer (omega arith) in
        let same = ap (λ (c : Config). c.max_size) d.config in
        let full : is_full key after ≡ true = ground (arith, emptied.1, wrapped, same) in
        (emptied.0, (push_all-full key event events after full (rw emptied.0 (omega arith))).0)
