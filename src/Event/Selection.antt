-- ===== src/Event/Selection.antt =====
-- The whole handler of keyspace events (library.c, lines 34-131 and 180-210), by what the masks mean
-- and not by the matcher.
use redis_keyspace_amqp.Base.{
  ◌≡◌, ◌↔◌, ◌⊎◌, inl, inr, refl, sym, ◌∙◌, ap, Bool, true, false, ◌||◌, List, [], ◌∷◌, ◌++◌, ◌&&◌,
  map, ltb, leb, none, some, Bytes, c_str, bytes_eq, bytes_eq_refl, bytes_eq→eq, ◌==◌,
  if◌then◌else◌, length, Bool-cases, or-eq_true,
}
use redis_keyspace_amqp.Memory.{done}
use redis_keyspace_amqp.Match.{match}
use redis_keyspace_amqp.Match.Spec.{Occurs}
use redis_keyspace_amqp.Match.Decides.{match_iff}
use redis_keyspace_amqp.System.{Call, Env, System, delivered, emit}
use redis_keyspace_amqp.Amqp.Effects.{amqp_connect-Quiet}
use redis_keyspace_amqp.Storage.Push.{tail}
use redis_keyspace_amqp.Storage.{ListKey, redismodule_ok}
use redis_keyspace_amqp.Event.{
  key_mask_all, selects, ensure_timer, start_timer, connect_configured, is_redis_master,
  message_string, publish_event, publish_selected, on_keyspace_event,
}
use redis_keyspace_amqp.Event.Filter.{find, ensure_timer-keeps, on_keyspace_event-find}
use redis_keyspace_amqp.Event.Publish.{Accounted, sent, kept, publish_event-Accounted}

-- The mask is `ALL`, or it occurs in the key name.
abbrev pub Selects : Bytes → Bytes → Type 0
Selects mask keyname = (mask ≡ key_mask_all) ⊎ Occurs mask keyname

or_true : (a : Bool) {b : Bool} → b ≡ true → (a || b) ≡ true
or_true true e = refl
or_true false e = e

pub selects_iff : (mask keyname : Bytes) → (selects mask keyname ≡ true) ↔ Selects mask keyname
unfolding selects
selects_iff mask keyname = (
  λ e. elim (or-eq_true (bytes_eq mask key_mask_all) (match mask keyname) e) [
    | inl same ↦ inl (bytes_eq→eq mask key_mask_all same)
    | inr found ↦ inr ((match_iff mask keyname).0 found)
  ],
  chosen,
)
  where
    chosen : Selects mask keyname → selects mask keyname ≡ true
    chosen (inl same) = rw (ap (λ m. bytes_eq m key_mask_all) same, bytes_eq_refl key_mask_all) refl
    chosen (inr occurs) = or_true (bytes_eq mask key_mask_all) ((match_iff mask keyname).1 occurs)

abbrev pub NoneSelects : List Bytes → Bytes → Type 0
NoneSelects [] keyname = Unit
NoneSelects (m ∷ masks) keyname = (¬ (Selects m keyname)) × NoneSelects masks keyname

-- The first mask that selects the key name.
pub record Chosen (masks : List Bytes) (keyname : Bytes) : Type 0 where
  pub before : List Bytes
  pub mask : Bytes
  pub after : List Bytes
  pub splits : masks ≡ before ++ mask ∷ after
  pub picked : Selects mask keyname
  pub passed : NoneSelects before keyname

find-Chosen :
    (masks : List Bytes) (keyname : Bytes)
    → (NoneSelects masks keyname × (find keyname masks ≡ none))
      ⊎ ((c : Chosen masks keyname) × (find keyname masks ≡ some c.mask))
unfolding find
find-Chosen [] keyname = inl (tt, refl)
find-Chosen (m ∷ masks) keyname = elim (Bool-cases (selects m keyname)) [
  | inl picks ↦ rw picks (
      inr (
        record {
          before = [];
          mask = m;
          after = masks;
          splits = refl;
          picked = (selects_iff m keyname).0 picks;
          passed = tt;
        },
        refl,
      ))
  | inr skips ↦
      let skip : ¬ (Selects m keyname) = λ k. cc (skips, (selects_iff m keyname).1 k) in
      rw skips (elim (find-Chosen masks keyname) [
        | inl (later, e) ↦ inl ((skip, later), e)
        | inr (c, e) ↦ inr (
          record {
            before = m ∷ c.before;
            mask = c.mask;
            after = c.after;
            splits = ap (◌∷◌ m) c.splits;
            picked = c.picked;
            passed = (skip, c.passed);
          },
          e,
        )
      ])
]

module _ {Db : Type 0} (key : ListKey Db) (env : Env) where
  ensure_timer-storage_len : (s : System Db) → (ensure_timer env s).storage_len ≡ s.storage_len
  unfolding ensure_timer connect_configured start_timer
  ensure_timer-storage_len s = elim (Bool-cases (s.timer_id == 0)) [
    | inl idle ↦ rw idle ((amqp_connect-Quiet env _ _ _ _ _ s).storage_len)
    | inr running ↦ rw running refl
  ]

  Accounted-from :
      (m : Bytes) (s u t : System Db)
      → u.config ≡ s.config
      → u.db ≡ s.db
      → delivered u.trace ≡ delivered s.trace
      → u.storage_len ≡ s.storage_len
      → Accounted key env m u t
      → Accounted key env m s t
  Accounted-from m s u t config db before counter (sent run left splits kept_left out) =
      sent run left (ap key.elements (sym db) ∙ splits) kept_left
        (out ∙ ap (λ ds. (ds ++ c_str m ∷ []) ++ map c_str run) before)
  Accounted-from m s u t config db before counter (kept same elements) = kept (same ∙ before) (
      elements ∙ λ i.
      (if ltb 0 (config i).max_size && leb (config i).max_size (counter i)
        then tail (key.elements (db i))
        else key.elements (db i))
      ++ m ∷ [])

  -- The state in which an event is published.
  abbrev pub logged : Bytes → System Db → System Db
  logged mask s =
      emit
        (if bytes_eq mask key_mask_all
          then Call.log "Keyspace Event (ALL): %i / %s / %s"
          else Call.log "Keyspace Event (%s): %i / %s / %s")
        (ensure_timer env s)

  pub logged-delivered :
      (mask : Bytes) (s : System Db) → delivered (logged mask s).trace ≡ delivered s.trace
  unfolding delivered
  logged-delivered mask s =
      let (config, db, out) = ensure_timer-keeps env s in
      elim (Bool-cases (bytes_eq mask key_mask_all)) [ inl all ↦ rw all out | inr one ↦ rw one out ]

  -- What became of an event: no mask selects its key, and it is forgotten; or it is published by the
  -- first that does.
  pub data Handled (event key_name : Bytes) (s t : System Db) : Type 0 where
    ignored :
        NoneSelects s.config.key_masks.cells (c_str key_name)
        → t.db ≡ s.db
        → delivered t.trace ≡ delivered s.trace
        → Handled event key_name s t
    published :
        (c : Chosen s.config.key_masks.cells (c_str key_name))
        → Accounted key env
            (message_string (env.selected_db (logged c.mask s).trace) event (c_str key_name))
            s
            t
        → Handled event key_name s t

  -- On a master with forwarding enabled, whose array counts its masks, and where each wait for
  -- frames ends, every event is handled without a fault and with success. If no mask is ALL or
  -- occurs in the key name, nothing is delivered and the storage stays as it was. Else there is a
  -- first such mask, and the event's message is delivered, followed by a run of stored messages
  -- from the oldest on, or is appended to the storage, which gives up its oldest message only if
  -- its counter has reached the limit; the other messages are neither lost, reordered nor delivered
  -- twice.
  pub on_keyspace_event-Handled :
      (event key_name : Bytes) (s : System Db)
      → s.config.key_masks.size ≡ length s.config.key_masks.cells
      → is_redis_master env s ≡ true
      → s.enabled ≡ true
      → (t : System Db) × (on_keyspace_event key env event key_name s ≡ done (redismodule_ok, t))
        × Handled event key_name s t
  on_keyspace_event-Handled event key_name s counted master on =
      let (config, db, out) = ensure_timer-keeps env s in
      let u = ensure_timer env s in
      let runs = on_keyspace_event-find key env event key_name s counted master on in
      elim (find-Chosen s.config.key_masks.cells (c_str key_name)) [
        | inl (none_selects, e) ↦ (
          u,
          runs
              ∙ ap (λ o. done (redismodule_ok, publish_selected key env o event (c_str key_name) u))
                  e,
          ignored none_selects db out,
        )
        | inr (c, e) ↦
            let l = logged c.mask s in
            (
              publish_event key env event (c_str key_name) l,
              runs
                  ∙ ap
                      (λ o.
                        done (redismodule_ok, publish_selected key env o event (c_str key_name) u))
                      e,
              published c (
                  Accounted-from _ s l _ config db (logged-delivered c.mask s)
                    (ensure_timer-storage_len s)
                    (publish_event-Accounted key env event (c_str key_name) l)),
            )
      ]
