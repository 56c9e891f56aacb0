-- ===== src/Event/Recovery.antt =====
-- What the storage is for (library.c, lines 34-69 and 112-162): once the broker answers, everything
-- that is stored reaches it.
use redis_keyspace_amqp.Base.{
  ℕ, zero, suc, ◌+◌, ◌<◌, ◌≡◌, refl, sym, ◌∙◌, ap, true, not, List, [], ◌∷◌, ◌++◌, map, Option,
  none, some, Bytes, c_str, length, arith, append-nil, append_assoc, Bool-cases, inl, inr,
}
use redis_keyspace_amqp.System.{
  Status, ok, timeout, connection_closed, other, Env, System, delivered,
}
use redis_keyspace_amqp.Amqp.{redis_amqp_ok}
use redis_keyspace_amqp.Amqp.Healthy.{
  Healthy, IsUp, Good, down_is_not_up, amqp_publish-Good, amqp_connect-Good,
}
use redis_keyspace_amqp.Amqp.Effects.{
  Quiet, Sends, if_ok, amqp_connect-Quiet, Sends, if_ok, amqp_publish-Sends,
}
use redis_keyspace_amqp.Storage.{
  ListKey, decrement, redismodule_ok, size_lt_zero-eq_false, after_pop, publish_message,
  publish_loop, publish_stored_events,
}
use redis_keyspace_amqp.Storage.Drain.{Drained, publish_stored_events-Drained}
use redis_keyspace_amqp.Event.{
  message_string, connect_configured, start_timer, after_event, event_at, publish_event, check_at,
  reconnect, check_frames_and_heartbeat,
}

module _ {Db : Type 0} (key : ListKey Db) where
  -- `texts` reached the broker, and the storage is empty.
  pub record Emptied (texts : List Bytes) (s t : System Db) : Type 0 where
    pub sent : delivered t.trace ≡ delivered s.trace ++ texts
    pub left : key.elements t.db ≡ []
    pub up : IsUp t

module _ {Db : Type 0} (key : ListKey Db) (env : Env) (healthy : Healthy env) where
  after_pop-Good :
      (o : Option Bytes) (s : System Db) (next : System Db → ℕ × System Db)
      → IsUp s
      → ((x : Bytes)
          → o ≡ some x
          → (t : System Db) → IsUp t
          → key.elements t.db ≡ key.elements s.db
          → Good redismodule_ok (next t))
      → Good redismodule_ok (after_pop key env o s next)
  after_pop-Good none s next up k = (refl, up)
  after_pop-Good (some x) s next up k =
      let good =
        amqp_publish-Good env healthy s.config.exchange s.config.routing_key s.config.publish_props
          x s up in
      let t = (publish_message key env x s).1 in
      let same =
        amqp_publish-Sends env s.config.exchange s.config.routing_key s.config.publish_props x s in
      rw good.0 (
        k x refl (record t { storage_len = decrement t.storage_len }) good.1
          (ap key.elements same.db))

  publish_loop-Good :
      (xs : List Bytes) (fuel : ℕ) (s : System Db)
      → key.elements s.db ≡ xs
      → length xs < fuel
      → IsUp s
      → Good redismodule_ok (publish_loop key env fuel s)
  unfolding publish_loop
  publish_loop-Good xs zero s e f up = absurd (omega arith)
  publish_loop-Good [] (suc fuel) s e f up =
      let (p, q) = key.pop_nil s.db e in after_pop-Good _ _ _ up λ x some_x. cc
  publish_loop-Good (x ∷ xs) (suc fuel) s e f up =
      let (p, q) = key.pop_cons s.db x xs e in
      after_pop-Good _ _ _ up
        λ _ _ t up' same. publish_loop-Good xs fuel t (same ∙ q) (omega arith) up'

  publish_stored_events-Good :
      (s : System Db) → IsUp s → Good redismodule_ok (publish_stored_events key env s)
  unfolding publish_stored_events
  publish_stored_events-Good s up = rw size_lt_zero-eq_false (
      publish_loop-Good (key.elements s.db) (key.value_length s.db + 1) s refl
        (omega (arith, key.value_length_lem s.db)) up)

  all_sent :
      (s : System Db) (r : ℕ × System Db)
      → Drained key env s r
      → Good redismodule_ok r
      → Emptied key (map c_str (key.elements s.db)) s r.1
  all_sent s r d (good, up) = nothing_left d.left refl
    where
      nothing_left :
          (left : List Bytes) → d.left ≡ left → Emptied key (map c_str (key.elements s.db)) s r.1
      nothing_left [] e = record {
        sent =
            d.published
            ∙ ap (λ xs. delivered s.trace ++ map c_str xs)
                (sym (d.splits ∙ ap (λ xs. d.sent ++ xs) e ∙ append-nil d.sent));
        left = d.kept ∙ e;
        up = up;
      }
      nothing_left (x ∷ rest) e = let (bad, at) = d.refused x rest e in absurd (ground arith)

  drain-Emptied :
      (s : System Db)
      → IsUp s
      → Emptied key (map c_str (key.elements s.db)) s (publish_stored_events key env s).1
  drain-Emptied s up =
      all_sent s _ (publish_stored_events-Drained key env s) (publish_stored_events-Good s up)

  -- The callback opens the connection and drains the storage.
  reconnect-Emptied :
      (s : System Db)
      → s.conn ≡ none
      → Emptied key (map c_str (key.elements s.db)) s (reconnect key env s)
  unfolding reconnect connect_configured
  reconnect-Emptied s down =
      let (code, t) = connect_configured env s in
      let good : Good redis_amqp_ok (connect_configured env s) =
        amqp_connect-Good env healthy _ _ _ _ _ s down in
      let quiet : Quiet s t = amqp_connect-Quiet env _ _ _ _ _ s in
      let e = drain-Emptied t good.1 in
      rw good.0 (record {
        sent = e.sent ∙ (λ i. quiet.sent i ++ map c_str (key.elements (quiet.db i)));
        left = e.left;
        up = e.up;
      })

  started-Emptied :
      (texts : List Bytes) (s s1 t : System Db)
      → s1.trace ≡ s.trace
      → Emptied key texts s1 t
      → Emptied key texts s (start_timer env t)
  unfolding start_timer delivered
  started-Emptied texts s s1 t same e = record {
    sent = e.sent ∙ ap (λ tr. delivered tr ++ texts) same;
    left = e.left;
    up = e.up;
  }

  check_at-Emptied :
      (c : Option ℕ) (s : System Db)
      → s.conn ≡ c
      → c ≡ none
      → Emptied key (map c_str (key.elements s.db)) s (check_at key env c s)
  check_at-Emptied none s e down = reconnect-Emptied s e
  check_at-Emptied (some h) s e down = cc

  pub check-Emptied :
      (s : System Db)
      → s.enabled ≡ true
      → s.conn ≡ none
      → Emptied key (map c_str (key.elements s.db)) s (check_frames_and_heartbeat key env s)
  unfolding check_frames_and_heartbeat
  check-Emptied s on down =
      let s1 = record s { timer_id = 0 } in
      elim (Bool-cases (not s.enabled)) [
        | inl off ↦ absurd (ground arith)
        | inr still_on ↦
            rw still_on (started-Emptied _ s s1 _ refl (check_at-Emptied s1.conn s1 refl down))
      ]

  after_event-Emptied :
      (st : Status) (m : Bytes) (s t : System Db)
      → st ≡ ok
      → Sends (if_ok st (c_str m)) s t
      → IsUp t
      → Emptied key (c_str m ∷ map c_str (key.elements s.db)) s (after_event key env st m t)
  after_event-Emptied ok m s t e q up =
      let d = drain-Emptied t up in
      record {
        sent =
            d.sent
            ∙ (λ i. q.sent i ++ map c_str (key.elements (q.db i)))
            ∙ append_assoc (delivered s.trace) (c_str m ∷ []) (map c_str (key.elements s.db));
        left = d.left;
        up = d.up;
      }
  after_event-Emptied timeout m s t e q up = cc
  after_event-Emptied connection_closed m s t e q up = cc
  after_event-Emptied (other n) m s t e q up = cc

  event_at-Emptied :
      (c : Option ℕ) (m : Bytes) (s : System Db)
      → s.conn ≡ c
      → IsUp s
      → Emptied key (c_str m ∷ map c_str (key.elements s.db)) s (event_at key env c m s)
  event_at-Emptied none m s e up = absurd (down_is_not_up s e up)
  event_at-Emptied (some h) m s e up =
      let exchange = s.config.exchange in
      let routing_key = s.config.routing_key in
      let props = s.config.publish_props in
      let good = amqp_publish-Good env healthy exchange routing_key props m s up in
      after_event-Emptied _ m s _ good.0 (amqp_publish-Sends env exchange routing_key props m s)
        good.1

  -- An event on an open connection: it goes out first, then all that is stored.
  pub publish_event-Emptied :
      (event keyname : Bytes) (s : System Db)
      → IsUp s
      → Emptied key
          (c_str (message_string (env.selected_db s.trace) event keyname)
            ∷ map c_str (key.elements s.db))
          s
          (publish_event key env event keyname s)
  unfolding publish_event
  publish_event-Emptied event keyname s up = event_at-Emptied s.conn _ s refl up
