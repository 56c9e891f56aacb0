-- ===== src/Event/Pace.antt =====
-- How many timers are started (library.c, lines 161, 186 and 339) and stopped (line 357).
use redis_keyspace_amqp.Base.{
  ℕ, ◌+◌, ◌≤◌, ◌≡◌, refl, sym, ◌∙◌, ap, [], ◌∷◌, bytes_eq, ◌==◌, if◌then◌else◌, arith,
}
use redis_keyspace_amqp.System.{Call, Trace, Env, System, emit}
use redis_keyspace_amqp.Event.{start_timer}
use redis_keyspace_amqp.Event.Timer.{connect_ok, note, timers_of, Ticks}

-- An identifier other than 0.
abbrev pub is_set : ℕ → ℕ
is_set id = if id == 0 then 0 else 1

is_set-le : (id : ℕ) → is_set id ≤ 1
is_set-le id = ground arith

abbrev pub starts : Call → ℕ
starts (Call.create_timer interval id) = is_set id
starts _ = 0

abbrev pub stops : Call → ℕ
stops (Call.stop_timer id) = 1
stops _ = 0

abbrev pub greets : Call → ℕ
greets (Call.reply_with_simple_string text) = if bytes_eq text connect_ok then 1 else 0
greets _ = 0

unfoldable pub total : (Call → ℕ) → Trace → ℕ
total count [] = 0
total count (c ∷ t) = count c + total count t

module _ (count : Call → ℕ)
    (noted : (c : Call) (t : Trace) → total count (note c t) ≡ count c + total count t) where
  total-timers_of : (t : Trace) → total count (timers_of t) ≡ total count t
  unfolding total timers_of
  total-timers_of [] = refl
  total-timers_of (c ∷ t) = noted c (timers_of t) ∙ ap (λ n. count c + n) (total-timers_of t)

  total-same : (t u : Trace) → timers_of t ≡ timers_of u → total count t ≡ total count u
  total-same t u e = sym (total-timers_of t) ∙ ap (total count) e ∙ total-timers_of u

note-starts : (c : Call) (t : Trace) → total starts (note c t) ≡ starts c + total starts t
unfolding total
note-starts c t = ground arith

note-stops : (c : Call) (t : Trace) → total stops (note c t) ≡ stops c + total stops t
unfolding total
note-stops c t = ground arith

note-greets : (c : Call) (t : Trace) → total greets (note c t) ≡ greets c + total greets t
unfolding total
note-greets c t = ground arith

module _ {Db : Type 0} where
  -- Timers started: at most those stopped, `fired` callbacks, the one whose identifier is kept, and
  -- one for each connect that succeeded.
  abbrev pub IsPaced : ℕ → System Db → Type 0
  IsPaced fired s =
      total starts s.trace ≤ total stops s.trace + fired + is_set s.timer_id + total greets s.trace

  pub Ticks-IsPaced : (fired : ℕ) (s t : System Db) → Ticks s t → IsPaced fired s → IsPaced fired t
  Ticks-IsPaced fired s t k paced = omega (
    arith,
    paced,
    total-same starts note-starts t.trace s.trace k.timers,
    total-same stops note-stops t.trace s.trace k.timers,
    total-same greets note-greets t.trace s.trace k.timers,
    ap is_set k.timer_id,
  )

  abbrev pub MayStart : ℕ → System Db → Type 0
  MayStart fired s = total starts s.trace ≤ total stops s.trace + fired + total greets s.trace

  pub unkept-MayStart :
      (fired : ℕ) (s : System Db) → s.timer_id ≡ 0 → IsPaced fired s → MayStart fired s
  unkept-MayStart fired s e k = omega (arith, k, ap is_set e)

  -- To start a timer takes a callback that ran, a connect, or that no identifier is kept.
  pub start_timer-IsPaced :
      (env : Env) (fired : ℕ) (s : System Db) → MayStart fired s → IsPaced fired (start_timer env s)
  unfolding start_timer total
  start_timer-IsPaced env fired s k = omega (arith, k)

  pub forgotten-MayStart : (fired : ℕ) (s : System Db) → IsPaced fired s → MayStart (fired + 1) s
  forgotten-MayStart fired s k = omega (arith, k, is_set-le s.timer_id)

  pub greeted-IsPaced :
      (fired : ℕ) (s : System Db)
      → IsPaced (fired + 1) s
      → IsPaced fired (emit (Call.reply_with_simple_string connect_ok) s)
  unfolding total bytes_eq
  greeted-IsPaced fired s k = omega (arith, k)
