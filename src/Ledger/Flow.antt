-- ===== src/Ledger/Flow.antt =====
-- Steps of the code as actions of the ledger: a drain of the storage (library.c, lines 34-69), and the
-- end of an event (lines 112-131).
use redis_keyspace_amqp.Base.{
  ℕ, ◌≡◌, refl, sym, ◌∙◌, ap, List, [], ◌∷◌, ◌++◌, Bytes, c_str, Bool-cases, inl, inr,
}
use redis_keyspace_amqp.System.{Env, System, delivered}
use redis_keyspace_amqp.Amqp.Effects.{Quiet}
use redis_keyspace_amqp.Storage.{ListKey, is_full}
use redis_keyspace_amqp.Storage.Drain.{Drained}
use redis_keyspace_amqp.Event.Publish.{Accounted, sent, kept}
use redis_keyspace_amqp.Ledger.{
  Ledger, Action, publish, store, replace, acts, taken_all, sends, acts-sends, taken_all-sends,
}

module _ {Db : Type 0} (key : ListKey Db) where
  abbrev pub view : System Db → Ledger
  view s = record { sent = delivered s.trace; waiting = key.elements s.db }

  -- What happened between two states is a sequence of actions, which took in the texts `offers`.
  pub record Flows (offers : List Bytes) (s t : System Db) : Type 0 where
    pub actions : List Action
    pub follows : view t ≡ acts actions (view s)
    pub offered : taken_all actions ≡ offers

  pub still : (s t : System Db) → view t ≡ view s → Flows [] s t
  unfolding acts taken_all
  still s t e = record { actions = []; follows = e; offered = refl }

  -- Steps in front and behind that touch neither the broker's queue nor the storage.
  pub Flows-between :
      {offers : List Bytes} (s s1 t1 t : System Db)
      → view s1 ≡ view s
      → Flows offers s1 t1
      → view t ≡ view t1
      → Flows offers s t
  Flows-between s s1 t1 t e f e' = record {
    actions = f.actions;
    follows = e' ∙ f.follows ∙ ap (acts f.actions) e;
    offered = f.offered;
  }

  pub same_view :
      (s t : System Db) → t.db ≡ s.db → delivered t.trace ≡ delivered s.trace → view t ≡ view s
  same_view s t d e = λ i. record { sent = e i; waiting = key.elements (d i) }

  pub Quiet-view : {s t : System Db} → Quiet s t → view t ≡ view s
  Quiet-view {s} {t} q = same_view s t q.db q.sent

  pub Drained-Flows :
      (env : Env) (s : System Db) {r : ℕ × System Db} → Drained key env s r → Flows [] s r.1
  Drained-Flows env s {r} d = record {
    actions = sends d.sent;
    follows =
        (λ i. record { sent = d.published i; waiting = d.kept i })
        ∙ sym (acts-sends d.sent d.left (delivered s.trace))
        ∙ (λ i.
            acts (sends d.sent) (record { sent = delivered s.trace; waiting = sym d.splits i }));
    offered = taken_all-sends d.sent;
  }

  pub Accounted-Flows :
      (env : Env) (m : Bytes) (s t : System Db) → Accounted key env m s t → Flows (c_str m ∷ []) s t
  unfolding acts taken_all
  Accounted-Flows env m s t (sent run left e e' d) = record {
    actions = publish m ∷ sends run;
    follows =
        (λ i. record { sent = d i; waiting = e' i })
        ∙ sym (acts-sends run left (delivered s.trace ++ c_str m ∷ []))
        ∙ (λ i.
            acts (sends run)
              (record { sent = delivered s.trace ++ c_str m ∷ []; waiting = sym e i }));
    offered = ap (λ xs. c_str m ∷ xs) (taken_all-sends run);
  }
  Accounted-Flows env m s t (kept d e) = elim (Bool-cases (is_full key s)) [
    | inl full ↦ record {
      actions = replace m ∷ [];
      follows = λ i. record { sent = d i; waiting = (rw full at e) i };
      offered = refl;
    }
    | inr room ↦ record {
      actions = store m ∷ [];
      follows = λ i. record { sent = d i; waiting = (rw room at e) i };
      offered = refl;
    }
  ]
