-- ===== src/Event/Filter.antt =====
-- `onKeyspaceEvent` (library.c, lines 180-210): which events are published.
use redis_keyspace_amqp.Base.{
  ◌≡◌, refl, sym, ◌∙◌, ap, ap₂, Bool, true, false, ◌&&◌, List, [], ◌∷◌, ◌++◌, Option, none, some,
  Bytes, c_str, ◌==◌, if◌then◌else◌, arith, length, length-append, get_elem?, append_assoc,
  Bool-cases, inl, inr,
}
use redis_keyspace_amqp.Memory.{text_bytes, done, ◌>>=◌}
use redis_keyspace_amqp.StringArray.{StringArray, get_length, get_element}
use redis_keyspace_amqp.System.{Config, Env, System, delivered}
use redis_keyspace_amqp.Amqp.Effects.{amqp_connect-Quiet}
use redis_keyspace_amqp.Storage.{ListKey, redismodule_ok}
use redis_keyspace_amqp.Event.{
  selects, mask_loop, ensure_timer, start_timer, connect_configured, is_redis_master,
  publish_selected, filter_event, on_keyspace_event,
}

-- The first mask of the list that selects the key.
unfoldable pub find : Bytes → List Bytes → Option Bytes
find keyname [] = none
find keyname (m ∷ masks) = if selects m keyname then some m else find keyname masks

get_elem?-middle :
    (pre : List Bytes) (x : Bytes) (rest : List Bytes)
    → get_elem? (pre ++ x ∷ rest) (length pre) ≡ some x
get_elem?-middle [] x rest = refl
get_elem?-middle (p ∷ pre) x rest = get_elem?-middle pre x rest

mask_loop-from :
    (pre rest : List Bytes) (arr : StringArray) (keyname : Bytes)
    → arr.cells ≡ pre ++ rest
    → mask_loop (length rest) (length pre) arr keyname ≡ done (find keyname rest)
unfolding mask_loop find get_element
mask_loop-from pre [] arr keyname e = refl
mask_loop-from pre (m ∷ rest) arr keyname e =
    let here = ap (λ xs. get_elem? {A = Bytes} xs (length pre)) e ∙ get_elem?-middle pre m rest in
    let step = length-append pre (m ∷ []) in
    let later =
      ap (λ n. mask_loop (length rest) n arr keyname) (sym step)
      ∙ mask_loop-from (pre ++ m ∷ []) rest arr keyname
          (e ∙ sym (append_assoc pre (m ∷ []) rest)) in
    ground (arith, here, later)

-- The loop over the array reads inside it, and finds the first mask that selects the key.
mask_loop-find :
    (arr : StringArray) (keyname : Bytes)
    → arr.size ≡ length arr.cells
    → mask_loop (get_length arr) 0 arr keyname ≡ done (find keyname arr.cells)
unfolding get_length
mask_loop-find arr keyname e =
    ap (λ n. mask_loop n 0 arr keyname) e ∙ mask_loop-from [] arr.cells arr keyname refl

module _ {Db : Type 0} (env : Env) where
  start_timer-keeps :
      (s : System Db)
      → ((start_timer env s).config ≡ s.config)
        × ((start_timer env s).db ≡ s.db)
        × (delivered (start_timer env s).trace ≡ delivered s.trace)
  unfolding start_timer delivered
  start_timer-keeps s = (refl, refl, refl)

  -- Starting the timer and the connection changes no mask, no stored event and no delivery.
  pub ensure_timer-keeps :
      (s : System Db)
      → ((ensure_timer env s).config ≡ s.config)
        × ((ensure_timer env s).db ≡ s.db)
        × (delivered (ensure_timer env s).trace ≡ delivered s.trace)
  unfolding ensure_timer connect_configured
  ensure_timer-keeps s = elim (Bool-cases (s.timer_id == 0)) [
    | inl idle ↦
        let q =
          amqp_connect-Quiet env (text_bytes s.config.hostname) s.config.port
            (text_bytes s.config.username) (text_bytes s.config.password) s.config.heartbeat s in
        let (c, d, t) = start_timer-keeps (connect_configured env s).1 in
        rw idle (c ∙ q.config, d ∙ q.db, t ∙ q.sent)
    | inr running ↦ rw running (refl, refl, refl)
  ]

module _ {Db : Type 0} (key : ListKey Db) (env : Env) (event key_name : Bytes) where
  -- What is done with an event, from the state `t`.
  abbrev pub filtered : List Bytes → System Db → System Db
  filtered masks t = publish_selected key env (find (c_str key_name) masks) event (c_str key_name) t

  filter_event-find :
      (t : System Db)
      → t.config.key_masks.size ≡ length t.config.key_masks.cells
      → filter_event key env event key_name t ≡ done (filtered t.config.key_masks.cells t)
  unfolding filter_event
  filter_event-find t counted = rw (mask_loop-find t.config.key_masks (c_str key_name) counted)

  module _ (s : System Db) where
    -- On a master with forwarding enabled an event is published exactly if some mask selects its
    -- key name, cut at the first NUL; then it is published once, by the first such mask. The array
    -- of masks is read in bounds.
    pub on_keyspace_event-find :
        s.config.key_masks.size ≡ length s.config.key_masks.cells
        → is_redis_master env s ≡ true
        → s.enabled ≡ true
        → on_keyspace_event key env event key_name s
          ≡ done (redismodule_ok, filtered s.config.key_masks.cells (ensure_timer env s))
    unfolding on_keyspace_event
    on_keyspace_event-find counted master on =
        let t = ensure_timer env s in
        let same = ap (λ (c : Config). c.key_masks) (ensure_timer-keeps env s).0 in
        let counted_t =
          ap (λ (a : StringArray). a.size) same
          ∙ counted
          ∙ ap (λ (a : StringArray). length a.cells) (sym same) in
        let run =
          filter_event-find t counted_t
          ∙ ap (λ (a : StringArray). done (filtered a.cells t)) same in
        ap
          (λ (b : Bool).
            if b
            then (filter_event key env event key_name t >>= λ s'. done (redismodule_ok, s'))
            else done (redismodule_ok, s))
          (ap₂ ◌&&◌ master on)
        ∙ ap (λ o. o >>= λ s'. done (redismodule_ok, s')) run

    -- On a replica, or with forwarding disabled, an event changes nothing and is not published.
    pub on_keyspace_event-off :
        (is_redis_master env s && s.enabled) ≡ false
        → on_keyspace_event key env event key_name s ≡ done (redismodule_ok, s)
    unfolding on_keyspace_event
    on_keyspace_event-off off =
        ap
          (λ (b : Bool).
            if b
            then (filter_event key env event key_name (ensure_timer env s) >>= λ s'.
                done (redismodule_ok, s'))
            else done (redismodule_ok, s))
          off
