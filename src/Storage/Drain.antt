-- ===== src/Storage/Drain.antt =====
-- `publishStoredEvents` (library.c, lines 34-69) sends the stored events in order and loses none.
use redis_keyspace_amqp.Base.{
  ℕ, zero, suc, ◌+◌, ◌<◌, ◌≡◌, ◌≢◌, refl, sym, ◌∙◌, ap, subst, List, [], ◌∷◌, ◌++◌, map, Option,
  none, some, Bytes, c_str, length, arith, append-nil, append_assoc,
}
use redis_keyspace_amqp.System.{
  Status, ok, timeout, connection_closed, other, Env, System, delivered, visible,
}
use redis_keyspace_amqp.Amqp.Effects.{Sends, if_ok, amqp_publish-Sends}
use redis_keyspace_amqp.Storage.{
  ListKey, redismodule_ok, redismodule_err, decrement, size_lt_zero-eq_false, after_publish,
  publish_message, after_pop, publish_loop, publish_stored_events,
}

-- `fallbackStorageLen--`, `n` times
unfoldable pub decrements : ℕ → ℕ → ℕ
decrements zero len = len
decrements (suc n) len = decrements n (decrement len)

-- What a pop of the list `before` gave, when `after` is left.
abbrev Popped : Option Bytes → List Bytes → List Bytes → Type 0
Popped none before after = before ≡ []
Popped (some x) before after = before ≡ x ∷ after

module _ {Db : Type 0} (key : ListKey Db) (env : Env) where
  -- The broker took `sent` from the head of the list, in order, and `left` is what the list still
  -- holds. The call returns OK exactly if nothing is left; else its last act was to publish the
  -- first message that is left, and the broker did not take it.
  pub record Drained (s : System Db) (r : ℕ × System Db) : Type 0 where
    pub sent : List Bytes
    pub left : List Bytes
    pub splits : key.elements s.db ≡ sent ++ left
    pub kept : key.elements r.1.db ≡ left
    pub published : delivered r.1.trace ≡ delivered s.trace ++ map c_str sent
    pub counted : r.1.storage_len ≡ decrements (length sent) s.storage_len
    pub config : r.1.config ≡ s.config
    pub timer_id : r.1.timer_id ≡ s.timer_id
    pub enabled : r.1.enabled ≡ s.enabled
    pub visible_same : visible r.1.trace ≡ visible s.trace
    ok_if_empty : left ≡ [] → r.0 ≡ redismodule_ok
    pub refused :
        (x : Bytes) (rest : List Bytes)
        → left ≡ x ∷ rest
        → (r.0 ≡ redismodule_err)
          × ((t : System Db) × ((publish_message key env x t).0 ≢ ok)
              × (r.1.trace ≡ (publish_message key env x t).1.trace))

  stop-Drained :
      (s : System Db) (d : Db)
      → key.elements s.db ≡ []
      → key.elements d ≡ []
      → Drained s (redismodule_ok, record s { db = d })
  unfolding decrements
  stop-Drained s d e e' = record {
    sent = [];
    left = [];
    splits = e;
    kept = e';
    published = sym (append-nil (delivered s.trace));
    counted = refl;
    config = refl;
    timer_id = refl;
    enabled = refl;
    visible_same = refl;
    ok_if_empty = λ _. refl;
    refused = λ x rest h. cc;
  }

  -- From `s`, whose list begins with `x`, the pop has led to `s1` and the publish to `s2`.
  module _ (s : System Db) (x : Bytes) (xs : List Bytes) (d : Db)
      (before : key.elements s.db ≡ x ∷ xs) (popped : key.elements d ≡ xs) where
    abbrev s1 : System Db
    s1 = record s { db = d }

    abbrev s2 : System Db
    s2 = (publish_message key env x s1).1

    publish_message-Sends :
        {st : Status} → (publish_message key env x s1).0 ≡ st → Sends (if_ok st (c_str x)) s1 s2
    publish_message-Sends e = rw e at (
        amqp_publish-Sends env s1.config.exchange s1.config.routing_key s1.config.publish_props x
          s1)

    refuse-Drained :
        (publish_message key env x s1).0 ≢ ok
        → Sends none s1 s2
        → Drained s (redismodule_err, record s2 { db = key.list_push_head x s2.db })
    unfolding decrements
    refuse-Drained bad e = record {
      sent = [];
      left = x ∷ xs;
      splits = before;
      kept = key.push_head_lem x s2.db ∙ ap (◌∷◌ x) (ap key.elements e.db ∙ popped);
      published = e.sent ∙ sym (append-nil (delivered s.trace));
      counted = e.storage_len;
      config = e.config;
      timer_id = e.timer_id;
      enabled = e.enabled;
      visible_same = e.visible_same;
      ok_if_empty = λ h. cc;
      refused =
          λ y rest h. let same : x ≡ y = cc in (refl, (s1, rw (← same) bad, rw (← same) refl));
    }

    send-Drained :
        {r : ℕ × System Db}
        → Sends (some (c_str x)) s1 s2
        → Drained (record s2 { storage_len = decrement s2.storage_len }) r
        → Drained s r
    unfolding decrements
    send-Drained {r} e rest = record {
      sent = x ∷ rest.sent;
      left = rest.left;
      splits = before ∙ ap (◌∷◌ x) (sym popped ∙ ap key.elements (sym e.db) ∙ rest.splits);
      kept = rest.kept;
      published =
          rest.published
          ∙ ap (λ ds. ds ++ map c_str rest.sent) e.sent
          ∙ append_assoc (delivered s.trace) (c_str x ∷ []) (map c_str rest.sent);
      counted = rest.counted ∙ ap (λ n. decrements (length rest.sent) (decrement n)) e.storage_len;
      config = rest.config ∙ e.config;
      timer_id = rest.timer_id ∙ e.timer_id;
      enabled = rest.enabled ∙ e.enabled;
      visible_same = rest.visible_same ∙ e.visible_same;
      ok_if_empty = rest.ok_if_empty;
      refused = rest.refused;
    }

    after_publish-Drained :
        (st : Status) (next : System Db → ℕ × System Db)
        → (publish_message key env x s1).0 ≡ st
        → ((t : System Db) → key.elements t.db ≡ xs → Drained t (next t))
        → Drained s (after_publish key env st x s2 next)
    after_publish-Drained ok next e ih =
        let sends = publish_message-Sends e in
        send-Drained sends (ih _ (ap key.elements sends.db ∙ popped))
    after_publish-Drained timeout next e ih = refuse-Drained (λ k. cc) (publish_message-Sends e)
    after_publish-Drained connection_closed next e ih =
        refuse-Drained (λ k. cc) (publish_message-Sends e)
    after_publish-Drained (other n) next e ih = refuse-Drained (λ k. cc) (publish_message-Sends e)

  after_pop-Drained :
      (o : Option Bytes) (xs : List Bytes) (s : System Db) (d : Db)
      (next : System Db → ℕ × System Db)
      → Popped o (key.elements s.db) xs
      → key.elements d ≡ xs
      → ((x : Bytes) → o ≡ some x → (t : System Db) → key.elements t.db ≡ xs → Drained t (next t))
      → Drained s (after_pop key env o (record s { db = d }) next)
  after_pop-Drained none xs s d next h e ih = stop-Drained s (key.delete_key d) h (key.delete_lem d)
  after_pop-Drained (some x) xs s d next h e ih =
      after_publish-Drained s x xs d h e (publish_message key env x (record s { db = d })).0 next
        refl (ih x refl)

  publish_loop-Drained :
      (xs : List Bytes) (fuel : ℕ) (s : System Db)
      → key.elements s.db ≡ xs
      → length xs < fuel
      → Drained s (publish_loop key env fuel s)
  unfolding publish_loop
  publish_loop-Drained xs zero s e f = absurd (omega arith)
  publish_loop-Drained [] (suc fuel) s e f =
      let (p, q) = key.pop_nil s.db e in
      let got = subst (λ o. Popped o (key.elements s.db) []) (sym p) e in
      after_pop-Drained (key.list_pop_head s.db).0 [] s (key.list_pop_head s.db).1 _ got q
        λ x some_x. cc
  publish_loop-Drained (x ∷ xs) (suc fuel) s e f =
      let (p, q) = key.pop_cons s.db x xs e in
      let got = subst (λ o. Popped o (key.elements s.db) xs) (sym p) e in
      after_pop-Drained (key.list_pop_head s.db).0 xs s (key.list_pop_head s.db).1 _ got q
        λ _ _ t h. publish_loop-Drained xs fuel t h (omega arith)

  -- `publishStoredEvents` sends a run of messages from the head of the storage, in the order in
  -- which they are stored and each once; what it does not send stays stored in the same order. It
  -- returns OK exactly if the storage is empty afterwards, and stops early only at a message that
  -- the broker did not take. The length counter falls by one for each message sent.
  pub publish_stored_events-Drained : (s : System Db) → Drained s (publish_stored_events key env s)
  unfolding publish_stored_events
  publish_stored_events-Drained s = rw size_lt_zero-eq_false (
      publish_loop-Drained (key.elements s.db) (key.value_length s.db + 1) s refl
        (omega (arith, key.value_length_lem s.db)))
