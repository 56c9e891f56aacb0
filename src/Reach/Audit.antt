-- ===== src/Reach/Audit.antt =====
-- Runs of the whole module (library.c, lines 34-506): what became of the events that it was offered,
-- and whether its timer goes on.
use mathlib.Core.List.{Perm}
use redis_keyspace_amqp.Base.{
  ℕ, ◌≡◌, refl, sym, ◌∙◌, ap, ap₂, subst, inl, inr, true, List, [], ◌++◌, Bytes, arith, ◌&&◌,
}
use redis_keyspace_amqp.Memory.{done}
use redis_keyspace_amqp.System.{Env, System}
use redis_keyspace_amqp.Storage.{ListKey}
use redis_keyspace_amqp.Event.{is_redis_master, on_keyspace_event}
use redis_keyspace_amqp.Event.Beats.{event-wakes}
use redis_keyspace_amqp.Event.Timer.{IsPending, IsTimed, IsAlive}
use redis_keyspace_amqp.Config.Fits.{IsTyped}
use redis_keyspace_amqp.Ledger.{Action, acts, acts-append, taken_all, taken_all-append, lost_all}
use redis_keyspace_amqp.Ledger.Conserve.{holds, acts-Perm}
use redis_keyspace_amqp.Ledger.Flow.{view, Flows}
use redis_keyspace_amqp.Reach.{Entry, keyspace_event, enter, Reaches, here, step}
use redis_keyspace_amqp.Reach.Plain.{Ends-bind, Ends-done}
use redis_keyspace_amqp.Reach.Effects.{Effect, offers, enter-Effect}

module _ {Db : Type 0} (key : ListKey Db) (env : Env) where
  -- The texts that the events of a run have the module account for, in order.
  unfoldable pub offered : {s t : System Db} → Reaches key env s t → List Bytes
  offered here = []
  offered {s} (step e ends rest) = offers key env e s ++ offered rest

  entered :
      (e : Entry) (s t : System Db)
      → enter key env e s ≡ done t
      → Effect key env (offers key env e s) s t
  entered e s t ends =
      Ends-done (Effect key env (offers key env e s) s) (enter key env e s) t
        (enter-Effect key env e s) ends

  Flows-then :
      {xs ys : List Bytes} {s t u : System Db}
      → Flows key xs s t
      → Flows key ys t u
      → Flows key (xs ++ ys) s u
  Flows-then {s = s} f g = record {
    actions = f.actions ++ g.actions;
    follows =
        g.follows
        ∙ ap (acts g.actions) f.follows
        ∙ sym (acts-append f.actions g.actions (view key s));
    offered = taken_all-append f.actions g.actions ∙ ap₂ (λ xs ys. xs ++ ys) f.offered g.offered;
  }

  Reaches-Flows : {s t : System Db} (run : Reaches key env s t) → Flows key (offered run) s t
  unfolding offered acts taken_all
  Reaches-Flows here = record { actions = []; follows = refl; offered = refl }
  Reaches-Flows {s} (step {s1 = s1} e ends rest) =
      Flows-then ((entered e s s1 ends).flows) (Reaches-Flows rest)

  -- Every run is a sequence of the ledger's actions: new events go to the broker or to the end of
  -- the storage, stored ones go to the broker, the oldest first, or the oldest is given up for a new
  -- one. The new events are
  -- the texts that the run offers, in order; and what the broker and the storage hold at its end,
  -- with what was given up, is up to order what they held at its start, with what was offered.
  pub Reaches-conserves :
      {s t : System Db} (run : Reaches key env s t)
      → (as' : List Action) × (view key t ≡ acts as' (view key s))
        × (taken_all as' ≡ offered run)
        × Perm (holds (view key t) ++ lost_all as' (view key s)) (holds (view key s) ++ offered run)
  Reaches-conserves {s} {t} run =
      let f = Reaches-Flows run in
      let moved = acts-Perm f.actions (view key s) in
      (
        f.actions,
        f.follows,
        f.offered,
        subst
            (λ v.
              Perm (holds v ++ lost_all f.actions (view key s)) (holds (view key s) ++ offered run))
            (sym f.follows)
            (subst
              (λ xs.
                Perm (holds (acts f.actions (view key s)) ++ lost_all f.actions (view key s))
                  (holds (view key s) ++ xs))
              f.offered moved),
      )

  -- Whatever runs, an identifier other than 0 is a pending timer's.
  pub Reaches-IsTimed : {s t : System Db} → IsTimed s → Reaches key env s t → IsTimed t
  Reaches-IsTimed timed here = timed
  Reaches-IsTimed {s} timed (step {s1 = s1} e ends rest) =
      Reaches-IsTimed ((entered e s s1 ends).timed timed) rest

  pub Reaches-IsTyped : {s t : System Db} → IsTyped s → Reaches key env s t → IsTyped t
  Reaches-IsTyped typed here = typed
  Reaches-IsTyped {s} typed (step {s1 = s1} e ends rest) =
      Reaches-IsTyped ((entered e s s1 ends).typed typed) rest

  Reaches-IsAlive : {s t : System Db} → IsAlive s → Reaches key env s t → IsAlive t
  Reaches-IsAlive alive here = alive
  Reaches-IsAlive {s} alive (step {s1 = s1} e ends rest) =
      Reaches-IsAlive ((entered e s s1 ends).alive alive) rest

  event-IsPending :
      (event key_name : Bytes) (s t : System Db)
      → IsTimed s
      → (is_redis_master env s && s.enabled) ≡ true
      → enter key env (keyspace_event event key_name) s ≡ done t
      → IsPending t
  unfolding enter
  event-IsPending event key_name s t timed on ends =
      Ends-done IsPending _ t
        (Ends-bind (λ (r : ℕ × System Db). IsPending r.1) IsPending
          (on_keyspace_event key env event key_name s) _
          (event-wakes env key event key_name s timed on) λ r k. k)
        ends

  -- In a run from a state whose timer identifier, if it is not 0, is a pending timer's: once a
  -- master with forwarding enabled has handled a keyspace event, a timer is pending in every later
  -- state in which forwarding is enabled.
  pub Reaches-IsPending :
      (event key_name : Bytes) {s s1 s2 t : System Db}
      → IsTimed s
      → Reaches key env s s1
      → (is_redis_master env s1 && s1.enabled) ≡ true
      → enter key env (keyspace_event event key_name) s1 ≡ done s2
      → Reaches key env s2 t
      → t.enabled ≡ true
      → IsPending t
  Reaches-IsPending event key_name {s1 = s1} {s2 = s2} timed before on ends after enabled =
      let woken = event-IsPending event key_name s1 s2 (Reaches-IsTimed timed before) on ends in
      elim (Reaches-IsAlive (inr woken) after) [
        | inl off ↦ absurd (ground arith)
        | inr pending ↦ pending
      ]
