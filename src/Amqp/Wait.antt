-- ===== src/Amqp/Wait.antt =====
-- When the wait for frames ends (amqp_connection.c, lines 15-31).
use redis_keyspace_amqp.Base.{
  ◌≤◌, ◌⊎◌, inl, inr, Bool-cases, ℕ, zero, suc, ◌<◌, ◌≡◌, ◌↔◌, refl, Bool, true, false, Option,
  none, some, if◌then◌else◌, arith,
}
use redis_keyspace_amqp.System.{
  Status, ok, timeout, other, empty, heartbeat, method, content, connection_close, channel_close,
  connection_closed, Frame, CloseOk, closing, wait_ends, is_last, AmqpCall, Env, System,
}
use redis_keyspace_amqp.Amqp.{on_conn, wait_result, wait_loop, wait_value, amqp_wait_frame}

-- A reply that ends the wait, in the words of librabbitmq.
abbrev pub EndsWait : Status → Frame → Type 0
EndsWait st f =
    (st ≡ timeout)
    ⊎ (st ≡ connection_closed)
    ⊎ (f ≡ empty)
    ⊎ (f ≡ heartbeat)
    ⊎ ((ch : ℕ) × (f ≡ connection_close ch))
    ⊎ ((ch : ℕ) × (f ≡ channel_close ch))

last-EndsWait : (st : Status) (f : Frame) → is_last (st, f) ≡ true → EndsWait st f
unfolding closing wait_ends
last-EndsWait st (connection_close ch) e = inr (inr (inr (inr (inl (ch, refl)))))
last-EndsWait st (channel_close ch) e = inr (inr (inr (inr (inr (ch, refl)))))
last-EndsWait st empty e = inr (inr (inl refl))
last-EndsWait st heartbeat e = inr (inr (inr (inl refl)))
last-EndsWait timeout method e = inl refl
last-EndsWait connection_closed method e = inr (inl refl)
last-EndsWait ok method e = cc
last-EndsWait (other n) method e = cc
last-EndsWait timeout content e = inl refl
last-EndsWait connection_closed content e = inr (inl refl)
last-EndsWait ok content e = cc
last-EndsWait (other n) content e = cc

wait_ends-empty : (st : Status) → wait_ends st empty ≡ true
unfolding wait_ends
wait_ends-empty ok = refl
wait_ends-empty timeout = refl
wait_ends-empty connection_closed = refl
wait_ends-empty (other n) = refl

wait_ends-heartbeat : (st : Status) → wait_ends st heartbeat ≡ true
unfolding wait_ends
wait_ends-heartbeat ok = refl
wait_ends-heartbeat timeout = refl
wait_ends-heartbeat connection_closed = refl
wait_ends-heartbeat (other n) = refl

wait_ends-last : (st : Status) (f : Frame) → wait_ends st f ≡ true → is_last (st, f) ≡ true
unfolding closing
wait_ends-last st (connection_close ch) e = refl
wait_ends-last st (channel_close ch) e = refl
wait_ends-last st empty e = e
wait_ends-last st heartbeat e = e
wait_ends-last st method e = e
wait_ends-last st content e = e

EndsWait-last : (st : Status) (f : Frame) → EndsWait st f → is_last (st, f) ≡ true
unfolding closing wait_ends
EndsWait-last st f (inl e) = wait_ends-last st f (rw e refl)
EndsWait-last st f (inr (inl e)) = wait_ends-last st f (rw e refl)
EndsWait-last st f (inr (inr (inl e))) = wait_ends-last st f (rw e (wait_ends-empty st))
EndsWait-last st f (inr (inr (inr (inl e)))) = wait_ends-last st f (rw e (wait_ends-heartbeat st))
EndsWait-last st f (inr (inr (inr (inr (inl (ch, e)))))) = rw e refl
EndsWait-last st f (inr (inr (inr (inr (inr (ch, e)))))) = rw e refl

passes_iff : (st : Status) (f : Frame) → (is_last (st, f) ≡ false) ↔ (¬ EndsWait st f)
passes_iff st f = (
  λ e ends. let last = EndsWait-last st f ends in cc,
  λ n. elim (Bool-cases (is_last (st, f))) [
    | inl last ↦ absurd (n (last-EndsWait st f last))
    | inr passes ↦ passes
  ],
)

module _ {Db : Type 0} where
  -- What every call on the connection keeps, the wait keeps.
  pub wait_loop-keeps {ℓ} :
      (P : System Db → Type ℓ)
      → ((t : System Db) → P t → P (on_conn AmqpCall.wait_frame_noblock t))
      → ((m : CloseOk) (ch : ℕ) (t : System Db) → P t → P (on_conn (AmqpCall.send_method m ch) t))
      → (fuel : ℕ) (replies : ℕ → Status × Frame) (s d : System Db) → P s
      → P d
      → P (wait_value (wait_loop fuel replies s) d).1
  unfolding wait_loop
  wait_loop-keeps P waits sends zero replies s d p q = q
  wait_loop-keeps P waits sends (suc fuel) replies s d p q =
      after (closing (replies 0).1) (wait_ends (replies 0).0 (replies 0).1)
        (wait_loop-keeps P waits sends fuel (λ i. replies (suc i)) s' d (waits s p) q)
    where
      s' : System Db
      s' = on_conn AmqpCall.wait_frame_noblock s

      again : Option (Status × System Db)
      again = wait_loop fuel (λ i. replies (suc i)) s'

      after :
          (o : Option (CloseOk × ℕ)) (b : Bool)
          → P (wait_value again d).1
          → P
              (wait_value
                (elim o [
                  | some (m, ch) ↦ some (connection_closed, on_conn (AmqpCall.send_method m ch) s')
                  | none ↦ if b then some (wait_result (replies 0).0, s') else again
                ])
                d).1
      after (some (m, ch)) b k = sends m ch s' (waits s p)
      after none true k = waits s p
      after none false k = k

  first_round :
      (fuel : ℕ) (replies : ℕ → Status × Frame) (s : System Db)
      → (wait_loop (suc fuel) replies s ≡ none) ↔ (
          (is_last (replies 0) ≡ false)
          × (wait_loop fuel (λ i. replies (suc i)) (on_conn AmqpCall.wait_frame_noblock s) ≡ none))
  unfolding wait_loop
  first_round fuel replies s = ground arith

  none-is_last :
      (fuel : ℕ) (replies : ℕ → Status × Frame) (s : System Db)
      → (wait_loop fuel replies s ≡ none) ↔ ((i : ℕ) → i < fuel → is_last (replies i) ≡ false)
  unfolding wait_loop
  none-is_last zero replies s = ((λ e i below. absurd (omega arith)), λ all. refl)
  none-is_last (suc fuel) replies s =
      let (to, from) = first_round fuel replies s in
      let (ahead, back) =
        none-is_last fuel (λ i. replies (suc i)) (on_conn AmqpCall.wait_frame_noblock s) in
      (
        λ e. later (to e).0 (ahead (to e).1),
        λ all. from (all 0 (omega arith), back λ i below. all (suc i) (omega arith)),
      )
    where
      later :
          is_last (replies 0) ≡ false
          → ((i : ℕ) → i < fuel → is_last (replies (suc i)) ≡ false)
          → (i : ℕ) → i < suc fuel
          → is_last (replies i) ≡ false
      later first rest zero below = first
      later first rest (suc i) below = rest i (omega arith)

  -- More fuel does not change a result.
  wait_loop-more :
      (fuel more : ℕ) (replies : ℕ → Status × Frame) (s : System Db) (r : Status × System Db)
      → fuel ≤ more
      → wait_loop fuel replies s ≡ some r
      → wait_loop more replies s ≡ some r
  unfolding wait_loop
  wait_loop-more zero more replies s r le e = cc
  wait_loop-more (suc fuel) zero replies s r le e = absurd (omega arith)
  wait_loop-more (suc fuel) (suc more) replies s r le e =
      let s' = on_conn AmqpCall.wait_frame_noblock s in
      let later = wait_loop-more fuel more (λ i. replies (suc i)) s' r (omega arith) in ground arith

  -- The wait for frames has no result after a number of rounds exactly if none of that many replies
  -- ends it, which a timeout, a closed connection, a frame variable with type 0 or a heartbeat, and
  -- the two close methods do; and a result stays the same on more rounds. So replies that never end
  -- it make the code spin.
  pub wait_loop-decided :
      (fuel : ℕ) (replies : ℕ → Status × Frame) (s : System Db)
      → ((wait_loop fuel replies s ≡ none)
          ↔ ((i : ℕ) → i < fuel → ¬ EndsWait (replies i).0 (replies i).1))
        × ((more : ℕ) (r : Status × System Db)
            → fuel ≤ more
            → wait_loop fuel replies s ≡ some r
            → wait_loop more replies s ≡ some r)
  wait_loop-decided fuel replies s =
      let (to, from) = none-is_last fuel replies s in
      (
        (
          λ e i below. (passes_iff (replies i).0 (replies i).1).0 (to e i below),
          λ all. from λ i below. (passes_iff (replies i).0 (replies i).1).1 (all i below),
        ),
        λ more r le e. wait_loop-more fuel more replies s r le e,
      )

  is_there :
      (o : Option (Status × System Db)) (s : System Db) → (¬ (o ≡ none)) → o ≡ some (wait_value o s)
  is_there none s n = absurd (n refl)
  is_there (some r) s n = refl

  -- The result of the wait is the loop's.
  pub amqp_wait_frame-ends :
      (env : Env) (s : System Db)
      → let i = env.incoming s.trace in
        wait_loop (suc i.rounds) i.replies s ≡ some (amqp_wait_frame env s)
  unfolding amqp_wait_frame
  amqp_wait_frame-ends env s =
      let i = env.incoming s.trace in
      is_there (wait_loop (suc i.rounds) i.replies s) s λ e.
        let before = (none-is_last (suc i.rounds) i.replies s).0 e i.rounds (omega arith) in
        let last = i.ends in cc
