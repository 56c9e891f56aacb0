-- ===== src/Event/Timer.antt =====
-- The heartbeat timer (library.c, lines 15, 134, 161, 183-187, 338-341 and 355-359): when one is
-- pending.
use redis_keyspace_amqp.Base.{
  ℕ, ◌<◌, ◌≡◌, refl, sym, subst, ◌∙◌, ap, ◌⊎◌, inl, inr, false, [], ◌∷◌, Option, none, some, Bytes,
  codes, bytes_eq, if◌then◌else◌, arith,
}
use redis_keyspace_amqp.Memory.{u64_mod}
use redis_keyspace_amqp.System.{emit, Call, Trace, Env, System, see, visible}
use redis_keyspace_amqp.Amqp.Effects.{Sends}
use redis_keyspace_amqp.Event.{start_timer}
use redis_keyspace_amqp.Config.Fits.{Fits, IsTyped}

abbrev pub timer_step : Call → Option ℕ → Option ℕ
timer_step (Call.create_timer interval id) last = some id
timer_step (Call.stop_timer id) last = none
timer_step _ last = last

-- The reply that a connect gives when it has started a timer (line 343).
abbrev pub connect_ok : Bytes
connect_ok = codes "AMQP CONNECT OK"

-- The calls that the timers see, and the replies of the connects that have started one.
abbrev pub note : Call → Trace → Trace
note (Call.create_timer interval id) t = Call.create_timer interval id ∷ t
note (Call.stop_timer id) t = Call.stop_timer id ∷ t
note (Call.reply_with_simple_string text) t =
    if bytes_eq text connect_ok then Call.reply_with_simple_string text ∷ t else t
note _ t = t

unfoldable pub timers_of : Trace → Trace
timers_of [] = []
timers_of (c ∷ t) = note c (timers_of t)

abbrev pub IsUntimed : Call → Type 0
IsUntimed c = (t : Trace) → note c t ≡ t

-- The timer that was created last, if none was stopped since. Its callback is still to come, since
-- a callback that goes on creates another.
unfoldable pub last_timer : Trace → Option ℕ
last_timer [] = none
last_timer (c ∷ t) = timer_step c (last_timer t)

note-last_timer :
    (c : Call) (t u : Trace)
    → last_timer t ≡ last_timer u
    → last_timer (note c t) ≡ timer_step c (last_timer u)
unfolding last_timer
note-last_timer c t u e = ground arith

timers_of-last_timer : (t : Trace) → last_timer (timers_of t) ≡ last_timer t
unfolding timers_of last_timer
timers_of-last_timer [] = refl
timers_of-last_timer (c ∷ t) = note-last_timer c (timers_of t) t (timers_of-last_timer t)

see-timers_of :
    (c : Call) (t u : Trace)
    → timers_of t ≡ timers_of u
    → timers_of (see c t) ≡ note c (timers_of u)
unfolding timers_of
see-timers_of c t u e = ground arith

pub visible-timers_of : (t : Trace) → timers_of (visible t) ≡ timers_of t
unfolding visible timers_of
visible-timers_of [] = refl
visible-timers_of (c ∷ t) = see-timers_of c (visible t) t (visible-timers_of t)

module _ {Db : Type 0} where
  abbrev pub IsPending : System Db → Type 0
  IsPending s = last_timer s.trace ≡ some s.timer_id

  -- A timer's identifier is kept while the timer is pending, and 0 if there is none.
  abbrev pub IsTimed : System Db → Type 0
  IsTimed s = (s.timer_id ≡ 0) ⊎ IsPending s

  -- Forwarding is off, or the timer is pending.
  abbrev pub IsAlive : System Db → Type 0
  IsAlive s = (s.enabled ≡ false) ⊎ IsPending s

  -- What keeps both: nothing happens to the timer, and forwarding is not switched. No setting changes
  -- either, and the length counter stays a size_t.
  pub record Ticks (s t : System Db) : Type 0 where
    pub enabled : t.enabled ≡ s.enabled
    pub timer_id : t.timer_id ≡ s.timer_id
    pub timers : timers_of t.trace ≡ timers_of s.trace
    pub config : t.config ≡ s.config
    pub counter : s.storage_len < u64_mod → t.storage_len < u64_mod

  pub same-Ticks : (s : System Db) → Ticks s s
  same-Ticks s = record {
    enabled = refl;
    timer_id = refl;
    timers = refl;
    config = refl;
    counter = λ k. k;
  }

  pub emit-Ticks : (c : Call) (s : System Db) → IsUntimed c → Ticks s (emit c s)
  unfolding timers_of
  emit-Ticks c s untimed = record {
    enabled = refl;
    timer_id = refl;
    timers = untimed (timers_of s.trace);
    config = refl;
    counter = λ k. k;
  }

  pub Sends-Ticks : (m : Option Bytes) (s t : System Db) → Sends m s t → Ticks s t
  Sends-Ticks m s t q = record {
    enabled = q.enabled;
    timer_id = q.timer_id;
    timers =
        sym (visible-timers_of t.trace) ∙ ap timers_of q.visible_same ∙ visible-timers_of s.trace;
    config = q.config;
    counter = λ k. subst (λ n. n < u64_mod) (sym q.storage_len) k;
  }

  Ticks-last : (s t : System Db) → Ticks s t → last_timer t.trace ≡ last_timer s.trace
  Ticks-last s t k =
      sym (timers_of-last_timer t.trace) ∙ ap last_timer k.timers ∙ timers_of-last_timer s.trace

  pub Ticks-IsPending : (s t : System Db) → Ticks s t → IsPending s → IsPending t
  Ticks-IsPending s t k p = Ticks-last s t k ∙ p ∙ ap some (sym k.timer_id)

  pub Ticks-IsTimed : (s t : System Db) → Ticks s t → IsTimed s → IsTimed t
  Ticks-IsTimed s t k (inl unset) = inl (k.timer_id ∙ unset)
  Ticks-IsTimed s t k (inr pending) = inr (Ticks-IsPending s t k pending)

  pub Ticks-IsAlive : (s t : System Db) → Ticks s t → IsAlive s → IsAlive t
  Ticks-IsAlive s t k (inl off) = inl (k.enabled ∙ off)
  Ticks-IsAlive s t k (inr pending) = inr (Ticks-IsPending s t k pending)

  pub Ticks-then : {s t u : System Db} → Ticks s t → Ticks t u → Ticks s u
  Ticks-then p q = record {
    enabled = q.enabled ∙ p.enabled;
    timer_id = q.timer_id ∙ p.timer_id;
    timers = q.timers ∙ p.timers;
    config = q.config ∙ p.config;
    counter = λ k. q.counter (p.counter k);
  }

  pub Ticks-IsTyped : (s t : System Db) → Ticks s t → IsTyped s → IsTyped t
  Ticks-IsTyped s t k typed = (subst Fits (sym k.config) typed.0, k.counter typed.1)

  pub start_timer-IsPending : (env : Env) (s : System Db) → IsPending (start_timer env s)
  unfolding start_timer last_timer
  start_timer-IsPending env s = refl
