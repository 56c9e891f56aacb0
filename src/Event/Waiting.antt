-- ===== src/Event/Waiting.antt =====
-- Events that come while there is no connection (library.c, lines 71-131 and 180-210): what the handler
-- stores of them.
use redis_keyspace_amqp.Base.{
  ℕ, ◌≡◌, refl, sym, ◌∙◌, ap, true, false, List, String, [], ◌∷◌, ◌++◌, Option, none, some, Bytes,
  c_str, ◌≢◌, length, subst, ◌==◌, ==_iff, Bool-cases, inl, inr, bytes_eq, append-nil, append_assoc,
}
use redis_keyspace_amqp.Memory.{Outcome, done, ◌>>=◌}
use redis_keyspace_amqp.System.{Call, Config, Env, System, emit, delivered}
use redis_keyspace_amqp.Storage.{
  ListKey, redismodule_ok, is_full, push_event_to_storage, size_lt_zero-eq_false,
}
use redis_keyspace_amqp.Storage.Push.{push-room, push-is_full}
use redis_keyspace_amqp.Event.{
  message_string, event_at, ensure_timer, key_mask_all, is_redis_master, on_keyspace_event,
  publish_event,
}
use redis_keyspace_amqp.Event.Selection.{Chosen, logged}
use redis_keyspace_amqp.Event.Delivery.{on_keyspace_event-Chosen}

-- An event that a mask selects.
pub record Selected (masks : List Bytes) : Type 0 where
  pub event : Bytes
  pub key_name : Bytes
  pub chosen : Chosen masks (c_str key_name)

module _ {Db : Type 0} (key : ListKey Db) (env : Env) {masks : List Bytes} where
  -- The handler is called for one event after another.
  abbrev pub handle_each : List (Selected masks) → System Db → Outcome (System Db)
  handle_each [] s = done s
  handle_each (e ∷ es) s =
      on_keyspace_event key env e.event e.key_name s >>= λ r. handle_each es r.1

  abbrev pub text_of : Selected masks → System Db → Bytes
  text_of e s =
      message_string (env.selected_db (logged key env e.chosen.mask s).trace) e.event
        (c_str e.key_name)

  -- The messages of the events. The database is the one that is selected when the event comes.
  abbrev pub texts : List (Selected masks) → System Db → List Bytes
  texts [] s = []
  texts (e ∷ es) s =
      text_of e s
      ∷ texts es (publish_event key env e.event (c_str e.key_name) (logged key env e.chosen.mask s))

module _ {Db : Type 0} (key : ListKey Db) (env : Env) where
  -- Nothing but the storage changes, and it takes `ms` at its end.
  pub record Kept (ms : List Bytes) (s t : System Db) : Type 0 where
    pub stored : key.elements t.db ≡ key.elements s.db ++ ms
    pub room : is_full key t ≡ is_full key s
    pub conn : t.conn ≡ s.conn
    pub config : t.config ≡ s.config
    pub timer_id : t.timer_id ≡ s.timer_id
    pub enabled : t.enabled ≡ s.enabled
    pub sent : delivered t.trace ≡ delivered s.trace

  Kept-then :
      (ms ns : List Bytes) (s t u : System Db) → Kept ms s t → Kept ns t u → Kept (ms ++ ns) s u
  Kept-then ms ns s t u p q = record {
    stored = q.stored ∙ ap (λ xs. xs ++ ns) p.stored ∙ append_assoc (key.elements s.db) ms ns;
    room = q.room ∙ p.room;
    conn = q.conn ∙ p.conn;
    config = q.config ∙ p.config;
    timer_id = q.timer_id ∙ p.timer_id;
    enabled = q.enabled ∙ p.enabled;
    sent = q.sent ∙ p.sent;
  }

  push-Kept :
      (m : Bytes) (s : System Db)
      → is_full key s ≡ false
      → Kept (m ∷ []) s (push_event_to_storage key m s)
  unfolding push_event_to_storage
  push-Kept m s room = record {
    stored = push-room key m s room;
    room = push-is_full key m s;
    conn = rw size_lt_zero-eq_false refl;
    config = rw size_lt_zero-eq_false refl;
    timer_id = rw size_lt_zero-eq_false refl;
    enabled = rw size_lt_zero-eq_false refl;
    sent = rw size_lt_zero-eq_false refl;
  }

  same-Kept : (s : System Db) → Kept [] s s
  same-Kept s = record {
    stored = sym (append-nil (key.elements s.db));
    room = refl;
    conn = refl;
    config = refl;
    timer_id = refl;
    enabled = refl;
    sent = refl;
  }

  log-Kept : (text : String) (s : System Db) → Kept [] s (emit (Call.log text) s)
  unfolding delivered
  log-Kept text s =
      let k = same-Kept s in
      record {
        stored = k.stored;
        room = refl;
        conn = refl;
        config = refl;
        timer_id = refl;
        enabled = refl;
        sent = refl;
      }

  event_at-Kept :
      (c : Option ℕ) (m : Bytes) (s : System Db)
      → c ≡ none
      → is_full key s ≡ false
      → Kept (m ∷ []) s (event_at key env c m s)
  event_at-Kept none m s e room = Kept-then [] (m ∷ []) s _ _ (log-Kept _ s) (push-Kept m _ room)
  event_at-Kept (some h) m s e room = cc

  -- A timer is pending, so the handler starts none, and no connection either.
  logged-Kept : (mask : Bytes) (s : System Db) → s.timer_id ≢ 0 → Kept [] s (logged key env mask s)
  unfolding ensure_timer
  logged-Kept mask s set = elim (Bool-cases (s.timer_id == 0)) [
    | inl idle ↦ absurd (set ((==_iff s.timer_id 0).0 idle))
    | inr running ↦ elim (Bool-cases (bytes_eq mask key_mask_all)) [
      | inl all ↦ rw (running, all) (log-Kept _ s)
      | inr one ↦ rw (running, one) (log-Kept _ s)
    ]
  ]

  -- A node that is waiting for a connection, with `masks`, and stores what comes.
  pub record IsWaiting (masks : List Bytes) (s : System Db) : Type 0 where
    pub counted : s.config.key_masks.size ≡ length s.config.key_masks.cells
    pub chosen_from : s.config.key_masks.cells ≡ masks
    pub on : s.enabled ≡ true
    pub set : s.timer_id ≢ 0
    pub down : s.conn ≡ none
    pub room : is_full key s ≡ false

  Kept-IsWaiting :
      (masks ms : List Bytes) (s t : System Db)
      → Kept ms s t
      → IsWaiting masks s
      → IsWaiting masks t
  Kept-IsWaiting masks ms s t k w = record {
    counted =
        subst (λ (c : Config). c.key_masks.size ≡ length c.key_masks.cells) (sym k.config)
          w.counted;
    chosen_from = ap (λ (c : Config). c.key_masks.cells) k.config ∙ w.chosen_from;
    on = k.enabled ∙ w.on;
    set = λ e. w.set (sym k.timer_id ∙ e);
    down = k.conn ∙ w.down;
    room = k.room ∙ w.room;
  }

  published-Kept :
      {masks : List Bytes} (e : Selected masks) (s : System Db)
      → IsWaiting masks s
      → Kept
          (text_of key env e s ∷ [])
          s
          (publish_event key env e.event (c_str e.key_name) (logged key env e.chosen.mask s))
  unfolding publish_event
  published-Kept e s w =
      let l = logged key env e.chosen.mask s in
      let k = logged-Kept e.chosen.mask s w.set in
      Kept-then [] (text_of key env e s ∷ []) s l _ k
        (event_at-Kept l.conn (text_of key env e s) l (k.conn ∙ w.down) (k.room ∙ w.room))

  handled :
      (s : System Db)
      → is_redis_master env s ≡ true
      → {masks : List Bytes} → IsWaiting masks s
      → (e : Selected masks)
      → on_keyspace_event key env e.event e.key_name s
        ≡ done (
          redismodule_ok,
          publish_event key env e.event (c_str e.key_name) (logged key env e.chosen.mask s),
        )
  handled s master w =
      subst
        (λ ms.
          (e : Selected ms)
          → on_keyspace_event key env e.event e.key_name s
            ≡ done (
              redismodule_ok,
              publish_event key env e.event (c_str e.key_name) (logged key env e.chosen.mask s),
            ))
        w.chosen_from
        λ e. on_keyspace_event-Chosen key env e.event e.key_name s w.counted master w.on e.chosen

  pub handle_each-Kept :
      {masks : List Bytes} (es : List (Selected masks)) (s : System Db)
      → ((t : System Db) → is_redis_master env t ≡ true)
      → IsWaiting masks s
      → (t : System Db) × (handle_each key env es s ≡ done t) × Kept (texts key env es s) s t
  handle_each-Kept [] s master w = (s, refl, same-Kept s)
  handle_each-Kept (e ∷ es) s master w =
      let u = publish_event key env e.event (c_str e.key_name) (logged key env e.chosen.mask s) in
      let k = published-Kept e s w in
      let (t, runs, rest) = handle_each-Kept es u master (Kept-IsWaiting _ _ s u k w) in
      (
        t,
        ap (λ o. o >>= λ r. handle_each key env es r.1) (handled s (master s) w e) ∙ runs,
        Kept-then (text_of key env e s ∷ []) (texts key env es u) s u t k rest,
      )
