-- ===== src/Event/Delivery.antt =====
-- An event that a mask selects, while the broker answers (library.c, lines 112-131 and 180-210).
use redis_keyspace_amqp.Base.{
  ◌≡◌, ◌≢◌, ◌⊎◌, inl, inr, refl, ◌∙◌, ap, Bool-cases, true, List, [], ◌∷◌, ◌++◌, none, some, map,
  Bytes, c_str, length, ◌==◌, ==_iff,
}
use redis_keyspace_amqp.Memory.{done}
use redis_keyspace_amqp.System.{Env, System}
use redis_keyspace_amqp.Amqp.Healthy.{Healthy, IsUp, amqp_connect-Good}
use redis_keyspace_amqp.Storage.{ListKey, redismodule_ok}
use redis_keyspace_amqp.Event.{
  selects, ensure_timer, start_timer, connect_configured, is_redis_master, message_string,
  publish_event, publish_selected, on_keyspace_event,
}
use redis_keyspace_amqp.Event.Filter.{find, ensure_timer-keeps, on_keyspace_event-find}
use redis_keyspace_amqp.Event.Selection.{selects_iff, NoneSelects, Chosen, logged, logged-delivered}
use redis_keyspace_amqp.Event.Recovery.{Emptied, publish_event-Emptied}

find-skips :
    (before rest : List Bytes) (keyname : Bytes)
    → NoneSelects before keyname
    → find keyname (before ++ rest) ≡ find keyname rest
unfolding find
find-skips [] rest keyname skips = refl
find-skips (m ∷ before) rest keyname (skip, later) = elim (Bool-cases (selects m keyname)) [
  | inl picks ↦ absurd (skip ((selects_iff m keyname).0 picks))
  | inr passes ↦ rw passes (find-skips before rest keyname later)
]

Chosen-find :
    (masks : List Bytes) (keyname : Bytes) (c : Chosen masks keyname)
    → find keyname masks ≡ some c.mask
unfolding find
Chosen-find masks keyname c =
    ap (find keyname) c.splits
    ∙ find-skips c.before (c.mask ∷ c.after) keyname c.passed
    ∙ rw ((selects_iff c.mask keyname).1 c.picked) refl

module _ {Db : Type 0} (key : ListKey Db) (env : Env) where
  -- On a master with forwarding enabled an event that a mask selects is published.
  pub on_keyspace_event-Chosen :
      (event key_name : Bytes) (s : System Db)
      → s.config.key_masks.size ≡ length s.config.key_masks.cells
      → is_redis_master env s ≡ true
      → s.enabled ≡ true
      → (c : Chosen s.config.key_masks.cells (c_str key_name))
      → on_keyspace_event key env event key_name s
        ≡ done
            (redismodule_ok, publish_event key env event (c_str key_name) (logged key env c.mask s))
  on_keyspace_event-Chosen event key_name s counted master on c =
      on_keyspace_event-find key env event key_name s counted master on
      ∙ ap
          (λ o. done (
            redismodule_ok,
            publish_selected key env o event (c_str key_name) (ensure_timer env s),
          ))
          (Chosen-find s.config.key_masks.cells (c_str key_name) c)

module _ {Db : Type 0} (key : ListKey Db) (env : Env) (healthy : Healthy env) where
  -- Nothing has run yet, or the timer and the connection are there.
  abbrev pub IsServed : System Db → Type 0
  IsServed s = ((s.timer_id ≡ 0) × (s.conn ≡ none)) ⊎ ((s.timer_id ≢ 0) × IsUp s)

  ensure_timer-IsUp : (s : System Db) → IsServed s → IsUp (ensure_timer env s)
  unfolding ensure_timer connect_configured start_timer
  ensure_timer-IsUp s served = elim (Bool-cases (s.timer_id == 0)) [
    | inl idle ↦ elim served [
      | inl (unset, down) ↦ rw idle ((amqp_connect-Good env healthy _ _ _ _ _ s down).1)
      | inr (set, up) ↦ absurd (set ((==_iff s.timer_id 0).0 idle))
    ]
    | inr running ↦ elim served [ inl (unset, down) ↦ cc | inr (set, up) ↦ rw running up ]
  ]

  -- On a master with forwarding enabled, where a mask selects the key of an event and the broker
  -- answers: if neither a timer nor a connection is there yet, or both are, the event's message is
  -- delivered at once, and after it all that was stored, in order and each once; the storage is empty
  -- then and the connection open.
  pub on_keyspace_event-delivers :
      (event key_name : Bytes) (s : System Db)
      → s.config.key_masks.size ≡ length s.config.key_masks.cells
      → is_redis_master env s ≡ true
      → s.enabled ≡ true
      → IsServed s
      → (c : Chosen s.config.key_masks.cells (c_str key_name))
      → let m =
          message_string (env.selected_db (logged key env c.mask s).trace) event (c_str key_name) in
        (t : System Db) × (on_keyspace_event key env event key_name s ≡ done (redismodule_ok, t))
        × Emptied key (c_str m ∷ map c_str (key.elements s.db)) s t
  on_keyspace_event-delivers event key_name s counted master on served c =
      let (config, db, out) = ensure_timer-keeps env s in
      let l = logged key env c.mask s in
      let e =
        publish_event-Emptied key env healthy event (c_str key_name) l
          (ensure_timer-IsUp s served) in
      (
        publish_event key env event (c_str key_name) l,
        on_keyspace_event-Chosen key env event key_name s counted master on c,
        record {
          sent = e.sent ∙ (λ i.
              logged-delivered key env c.mask s i
              ++ c_str (message_string (env.selected_db l.trace) event (c_str key_name))
                ∷ map c_str (key.elements (db i)));
          left = e.left;
          up = e.up;
        },
      )
