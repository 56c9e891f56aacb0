-- ===== src/Command/Answers.antt =====
-- What a command leaves as it is, and how many replies its client gets (library.c, lines 226-292,
-- 311-408 and 410-461).
use redis_keyspace_amqp.Base.{
  bytes_eq, codes, ℕ, ==_iff, ◌+◌, ◌≡◌, none, refl, sym, ◌∙◌, ap, inl, inr, Bool, true, false, List,
  [], ◌∷◌, Bytes, length, ltb, ◌==◌, if◌then◌else◌, Bool-cases, arith,
}
use redis_keyspace_amqp.System.{
  body_of, snoc, Call, Config, Trace, System, emit, delivered, see, visible,
}
use redis_keyspace_amqp.Amqp.{redis_amqp_ok, amqp_disconnect}
use redis_keyspace_amqp.Amqp.Effects.{Quiet, amqp_disconnect-Quiet}
use redis_keyspace_amqp.Event.Pace.{IsPaced, Ticks-IsPaced, total}
use redis_keyspace_amqp.Event.Timer.{
  IsUntimed, emit-Ticks, last_timer, IsTimed, IsAlive, Sends-Ticks, Ticks-IsTimed, Ticks-IsAlive,
  Ticks-IsTyped,
}
use redis_keyspace_amqp.Config.Fits.{Fits, IsTyped}
use redis_keyspace_amqp.Command.{
  complain_if, stop_timer, disconnect_answered, disconnect_reply, disconnect_amqp_command,
}

-- Calls that a client sees as a reply.
abbrev pub is_reply : Call → ℕ
is_reply (Call.reply_with_error text) = 1
is_reply (Call.reply_with_simple_string text) = 1
is_reply Call.wrong_arity = 1
is_reply _ = 0

unfoldable pub replies : Trace → ℕ
replies [] = 0
replies (c ∷ t) = replies t + is_reply c

see-replies :
    (c : Call) (t u : Trace) → replies t ≡ replies u → replies (see c t) ≡ replies u + is_reply c
unfolding replies
see-replies c t u e = ground arith

visible-replies : (t : Trace) → replies (visible t) ≡ replies t
unfolding visible replies
visible-replies [] = refl
visible-replies (c ∷ t) = see-replies c (visible t) t (visible-replies t)

-- A call that neither the broker nor the timers see.
abbrev pub IsTalk : Call → Type 0
IsTalk c = (body_of c ≡ none) × IsUntimed c

module _ {Db : Type 0} where
  -- No event is delivered, stored or dropped, `n` replies are sent, the timer is as well kept as it
  -- was, and every number fits its C type if it did.
  pub record Answers (n : ℕ) (s t : System Db) : Type 0 where
    pub db : t.db ≡ s.db
    pub sent : delivered t.trace ≡ delivered s.trace
    pub replied : replies t.trace ≡ replies s.trace + n
    pub timed : IsTimed s → IsTimed t
    pub alive : IsAlive s → IsAlive t
    pub typed : IsTyped s → IsTyped t
    pub paced : (fired : ℕ) → IsPaced fired s → IsPaced fired t

  pub Answers-then :
      {m n : ℕ} {s t u : System Db} → Answers m s t → Answers n t u → Answers (m + n) s u
  Answers-then p q = record {
    db = q.db ∙ p.db;
    sent = q.sent ∙ p.sent;
    replied = omega (arith, p.replied, q.replied);
    timed = λ k. q.timed (p.timed k);
    alive = λ k. q.alive (p.alive k);
    typed = λ k. q.typed (p.typed k);
    paced = λ fired k. q.paced fired (p.paced fired k);
  }

  Quiet-replies : {s t : System Db} → Quiet s t → replies t.trace ≡ replies s.trace
  Quiet-replies {s} {t} q =
      sym (visible-replies t.trace) ∙ ap replies q.visible_same ∙ visible-replies s.trace

  pub Quiet-Answers : {s t : System Db} → Quiet s t → Answers 0 s t
  Quiet-Answers {s = s} {t = t} q = record {
    db = q.db;
    sent = q.sent;
    replied = omega (arith, Quiet-replies q);
    timed = Ticks-IsTimed s t (Sends-Ticks none s t q);
    alive = Ticks-IsAlive s t (Sends-Ticks none s t q);
    typed = Ticks-IsTyped s t (Sends-Ticks none s t q);
    paced = λ fired. Ticks-IsPaced fired s t (Sends-Ticks none s t q);
  }

  pub same-Answers : (s : System Db) → Answers 0 s s
  same-Answers s = record {
    db = refl;
    sent = refl;
    replied = omega arith;
    timed = λ k. k;
    alive = λ k. k;
    typed = λ k. k;
    paced = λ fired k. k;
  }

  pub emit-Answers : (c : Call) (s : System Db) → IsTalk c → Answers (is_reply c) s (emit c s)
  unfolding delivered replies
  emit-Answers c s (body, untimed) = record {
    db = refl;
    sent = ap (snoc (delivered s.trace)) body;
    replied = refl;
    timed = Ticks-IsTimed s (emit c s) (emit-Ticks c s untimed);
    alive = Ticks-IsAlive s (emit c s) (emit-Ticks c s untimed);
    typed = λ k. k;
    paced = λ fired. Ticks-IsPaced fired s (emit c s) (emit-Ticks c s untimed);
  }

  pub configured-Answers :
      (c : Config) (s : System Db)
      → (Fits s.config → Fits c)
      → Answers 0 s (record s { config = c })
  configured-Answers c s fits = record {
    db = refl;
    sent = refl;
    replied = omega arith;
    timed = λ k. k;
    alive = λ k. k;
    typed = λ k. (fits k.0, k.1);
    paced = λ fired k. k;
  }

  pub complain_if-Answers :
      (bad : Bool) (s : System Db) → Answers (if bad then 1 else 0) s (complain_if bad s)
  complain_if-Answers true s = emit-Answers Call.wrong_arity s (refl, λ t. refl)
  complain_if-Answers false s = same-Answers s

  stop-Answers : (s : System Db) → Answers 0 s (stop_timer (record s { enabled = false }))
  unfolding stop_timer delivered replies last_timer total
  stop-Answers s = elim (Bool-cases (s.timer_id == 0)) [
    | inl idle ↦ rw idle (record {
      db = refl;
      sent = refl;
      replied = omega arith;
      timed = λ k. inl ((==_iff s.timer_id 0).0 idle);
      alive = λ k. inl refl;
      typed = λ k. k;
      paced = λ fired k. ground (arith, k);
    })
    | inr set ↦ rw set (record {
      db = refl;
      sent = refl;
      replied = omega arith;
      timed = λ k. inl refl;
      alive = λ k. inl refl;
      typed = λ k. k;
      paced = λ fired k. ground (arith, k);
    })
  ]

  disconnect_answered-Answers :
      (code : ℕ) (s : System Db) → Answers 1 s (disconnect_answered code s).1
  unfolding bytes_eq
  disconnect_answered-Answers code s = elim (Bool-cases (code == redis_amqp_ok)) [
    | inl good ↦ rw good (
        emit-Answers (Call.reply_with_simple_string (codes "AMQP DISCONNECT OK")) s
          (refl, λ t. refl))
    | inr bad ↦ rw bad (emit-Answers (Call.reply_with_error _) s (refl, λ t. refl))
  ]

  pub disconnect_amqp_command-Answers :
      (argv : List Bytes) (s : System Db)
      → Answers ((if ltb 1 (length argv) then 1 else 0) + 1) s (disconnect_amqp_command argv s).1
  unfolding disconnect_amqp_command disconnect_reply
  disconnect_amqp_command-Answers argv s =
      let bad = ltb 1 (length argv) in
      let s1 = complain_if bad s in
      let s2 = stop_timer (record s1 { enabled = false }) in
      let (code, s3) = amqp_disconnect s2 in
      Answers-then (complain_if-Answers bad s) (
        Answers-then (stop-Answers s1) (
          Answers-then (Quiet-Answers (amqp_disconnect-Quiet s2))
            (disconnect_answered-Answers code s3)))
