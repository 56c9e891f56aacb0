-- ===== src/Ledger/Entries.antt =====
-- The event handler and the timer's callback (library.c, lines 133-210) as actions of the ledger.
use redis_keyspace_amqp.Base.{
  ℕ, ◌≡◌, refl, ◌∙◌, Bool, true, false, not, ◌&&◌, List, [], ◌∷◌, Option, none, some, String, Bytes,
  c_str, bytes_eq, ◌==◌, if◌then◌else◌, Bool-cases, inl, inr,
}
use redis_keyspace_amqp.Memory.{Outcome, done, fault, ◌>>=◌}
use redis_keyspace_amqp.StringArray.{get_length}
use redis_keyspace_amqp.Reach.Plain.{Ends, Ends-bind}
use redis_keyspace_amqp.System.{
  Status, ok, timeout, connection_closed, other, Call, Env, System, emit, delivered,
}
use redis_keyspace_amqp.Amqp.{redis_amqp_ok, amqp_disconnect, amqp_wait_frame}
use redis_keyspace_amqp.Amqp.Effects.{
  amqp_connect-Quiet, amqp_disconnect-Quiet, amqp_wait_frame-Quiet,
}
use redis_keyspace_amqp.Storage.{ListKey}
use redis_keyspace_amqp.Storage.Drain.{publish_stored_events-Drained}
use redis_keyspace_amqp.Event.{
  key_mask_all, message_string, connect_configured, start_timer, ensure_timer, publish_event,
  reconnect, after_wait, check_at, check_frames_and_heartbeat, publish_selected, on_keyspace_event,
  is_redis_master, mask_loop, filter_event,
}
use redis_keyspace_amqp.Event.Publish.{publish_event-Accounted}
use redis_keyspace_amqp.Event.Filter.{ensure_timer-keeps}
use redis_keyspace_amqp.Ledger.Flow.{
  view, Flows, still, Flows-between, same_view, Quiet-view, Drained-Flows, Accounted-Flows,
}

abbrev log_of : Bytes → Call
log_of mask =
    if bytes_eq mask key_mask_all
    then Call.log "Keyspace Event (ALL): %i / %s / %s"
    else Call.log "Keyspace Event (%s): %i / %s / %s"

module _ {Db : Type 0} (env : Env) where
  abbrev pub text_of : Option Bytes → Bytes → Bytes → System Db → List Bytes
  text_of none event keyname s = []
  text_of (some mask) event keyname s =
      c_str (message_string (env.selected_db (log_of mask ∷ s.trace)) event keyname) ∷ []

  abbrev pub chosen : Outcome (Option Bytes) → Bytes → Bytes → System Db → List Bytes
  chosen fault event keyname s = []
  chosen (done mask) event keyname s = text_of mask event keyname s

  -- The texts that the module has to account for after a keyspace event: one, if the node is a master
  -- with forwarding enabled and a mask selects the key, and else none.
  abbrev pub offer : Bytes → Bytes → System Db → List Bytes
  offer event key_name s =
      let t = ensure_timer env s in
      let keyname = c_str key_name in
      if is_redis_master env s && s.enabled
      then chosen (mask_loop (get_length t.config.key_masks) 0 t.config.key_masks keyname) event
          keyname t
      else []

module _ {Db : Type 0} (key : ListKey Db) (env : Env) where
  log-view :
      (b : Bool) (x y : String) (s : System Db)
      → view key (emit (if b then Call.log x else Call.log y) s) ≡ view key s
  unfolding delivered
  log-view true x y s = refl
  log-view false x y s = refl

  publish_selected-Flows :
      (mask : Option Bytes) (event keyname : Bytes) (s : System Db)
      → Flows key
          (text_of env mask event keyname s)
          s
          (publish_selected key env mask event keyname s)
  publish_selected-Flows none event keyname s = still key s s refl
  publish_selected-Flows (some mask) event keyname s =
      let s1 = emit (log_of mask) s in
      let t = publish_event key env event keyname s1 in
      Flows-between key s s1 t t (log-view (bytes_eq mask key_mask_all) _ _ s)
        (Accounted-Flows key env _ s1 t (publish_event-Accounted key env event keyname s1)) refl

  chosen-Flows :
      (o : Outcome (Option Bytes)) (event keyname : Bytes) (s : System Db)
      → Ends
          (Flows key (chosen env o event keyname s) s)
          (o >>= λ mask. done (publish_selected key env mask event keyname s))
  chosen-Flows fault event keyname s = tt
  chosen-Flows (done mask) event keyname s = publish_selected-Flows mask event keyname s

  -- A keyspace event is one action of the ledger for its text, if it has one, and a run of `send`s
  -- after a `publish`.
  pub on_keyspace_event-Flows :
      (event key_name : Bytes) (s : System Db)
      → Ends
          (λ (r : ℕ × System Db). Flows key (offer env event key_name s) s r.1)
          (on_keyspace_event key env event key_name s)
  unfolding on_keyspace_event filter_event
  on_keyspace_event-Flows event key_name s =
      let t = ensure_timer env s in
      let (config, db, same) = ensure_timer-keeps env s in
      elim (Bool-cases (is_redis_master env s && s.enabled)) [
        | inl on ↦ rw on (
            Ends-bind _ _ (filter_event key env event key_name t) _
              (chosen-Flows
                (mask_loop (get_length t.config.key_masks) 0 t.config.key_masks (c_str key_name))
                event (c_str key_name) t)
              λ u f. Flows-between key s t u u (same_view key s t db same) f refl)
        | inr off ↦ rw off (still key s s refl)
      ]

  reconnect-Flows : (s : System Db) → Flows key [] s (reconnect key env s)
  unfolding reconnect connect_configured
  reconnect-Flows s =
      let (code, t) = connect_configured env s in
      let e = Quiet-view key {s = s} {t = t} (amqp_connect-Quiet env _ _ _ _ _ s) in
      elim (Bool-cases (code == redis_amqp_ok)) [
        | inl up ↦ rw up (
            Flows-between key s t _ _ e
              (Drained-Flows key env t (publish_stored_events-Drained key env t)) refl)
        | inr down ↦ rw down (still key s _ (Quiet-view key (amqp_disconnect-Quiet t) ∙ e))
      ]

  retry-Flows : (s : System Db) → Flows key [] s (reconnect key env (amqp_disconnect s).1)
  retry-Flows s =
      let t = (amqp_disconnect s).1 in
      Flows-between key s t _ _ (Quiet-view key (amqp_disconnect-Quiet s)) (reconnect-Flows t) refl

  after_wait-Flows : (st : Status) (s : System Db) → Flows key [] s (after_wait key env st s)
  after_wait-Flows ok s = still key s s refl
  after_wait-Flows timeout s = retry-Flows s
  after_wait-Flows connection_closed s = retry-Flows s
  after_wait-Flows (other n) s = retry-Flows s

  check_at-Flows : (c : Option ℕ) (s : System Db) → Flows key [] s (check_at key env c s)
  check_at-Flows none s = reconnect-Flows s
  check_at-Flows (some h) s =
      let (st, t) = amqp_wait_frame env s in
      Flows-between key s t _ _ (Quiet-view key (amqp_wait_frame-Quiet env s))
        (after_wait-Flows st t) refl

  start_timer-view : (s : System Db) → view key (start_timer env s) ≡ view key s
  unfolding start_timer delivered
  start_timer-view s = refl

  -- The timer's callback takes in nothing: at most it sends a run of stored messages.
  pub check_frames_and_heartbeat-Flows :
      (s : System Db) → Flows key [] s (check_frames_and_heartbeat key env s)
  unfolding check_frames_and_heartbeat
  check_frames_and_heartbeat-Flows s =
      let s1 = record s { timer_id = 0 } in
      elim (Bool-cases (not s.enabled)) [
        | inl off ↦ rw off (still key s s1 refl)
        | inr on ↦ rw on (
            Flows-between key s s1 (check_at key env s1.conn s1) _ refl (check_at-Flows s1.conn s1)
              (start_timer-view _))
      ]
