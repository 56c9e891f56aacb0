-- ===== src/Reach/Plain.antt =====
-- Calls that do not touch the connection, and runs that may fault.
use redis_keyspace_amqp.Base.{
  Bool, true, false, if◌then◌else◌, ℕ, ◌≡◌, refl, subst, ◌∙◌, ap, Option, some,
}
use redis_keyspace_amqp.Memory.{Outcome, done, fault, ◌>>=◌}
use redis_keyspace_amqp.System.{Call, System, emit}
use redis_keyspace_amqp.Amqp.Handles.{own_step, own_after, owner, IsOwned}

-- What holds of the result, if the run ends without a fault.
abbrev pub Ends {ℓ} : {A : Type ℓ} → (A → Type 0) → Outcome A → Type 0
Ends P (done x) = P x
Ends P fault = Unit

pub Ends-bind {ℓ κ} :
    {A : Type ℓ} {B : Type κ} (P : A → Type 0) (Q : B → Type 0) (o : Outcome A) (f : A → Outcome B)
    → Ends P o
    → ((x : A) → P x → Ends Q (f x))
    → Ends Q (o >>= f)
Ends-bind P Q (done x) f e g = g x e
Ends-bind P Q fault f e g = tt

pub Ends-any {ℓ} : {A : Type ℓ} (P : A → Type 0) (o : Outcome A) → ((x : A) → P x) → Ends P o
Ends-any P (done x) g = g x
Ends-any P fault g = tt

pub Ends-map {ℓ} :
    {A : Type ℓ} (P Q : A → Type 0) (o : Outcome A) → Ends P o → ((x : A) → P x → Q x) → Ends Q o
Ends-map P Q (done x) e g = g x e
Ends-map P Q fault e g = tt

-- What holds of the result under a condition that is known later.
pub Ends-given {ℓ} :
    {A : Type ℓ} {C : Type 0} (P : A → Type 0) (o : Outcome A)
    → (C → Ends P o)
    → Ends (λ x. C → P x) o
Ends-given P (done x) k = k
Ends-given P fault k = tt

-- Both branches of an `if`.
pub Ends-if {ℓ} :
    {A : Type ℓ} (P : A → Type 0) (b : Bool) (x y : Outcome A)
    → Ends P x
    → Ends P y
    → Ends P (if b then x else y)
Ends-if P true x y p q = p
Ends-if P false x y p q = q

pub Ends-done {ℓ} :
    {A : Type ℓ} (P : A → Type 0) (o : Outcome A) (x : A) → Ends P o → o ≡ done x → P x
Ends-done P o x e h = subst (Ends P) h e

-- Neither a new connection nor a call on one.
abbrev pub IsPlain : Call → Type 0
IsPlain (Call.new_connection h) = ⊥
IsPlain (Call.amqp h c) = ⊥
IsPlain _ = Unit

own_plain : (c : Call) (live : Option ℕ) → IsPlain c → own_step c live ≡ some live
own_plain (Call.new_connection h) live p = absurd p
own_plain (Call.amqp h c) live p = absurd p
own_plain (Call.log text) live p = refl
own_plain (Call.create_timer interval id) live p = refl
own_plain (Call.stop_timer id) live p = refl
own_plain (Call.reply_with_error text) live p = refl
own_plain (Call.reply_with_simple_string text) live p = refl
own_plain Call.wrong_arity live p = refl
own_plain (Call.send_cluster_message type text) live p = refl
own_plain (Call.module_init name) live p = refl
own_plain (Call.create_command name) live p = refl
own_plain (Call.subscribe_to_keyspace_events mode) live p = refl
own_plain (Call.register_cluster_message_receiver type) live p = refl

-- A plain call keeps to the discipline.
pub emit-IsOwned :
    {Db : Type 0} (c : Call) (s : System Db) → IsPlain c → IsOwned s → IsOwned (emit c s)
unfolding owner
emit-IsOwned c s p o = ap (λ l. own_after l c) o ∙ own_plain c s.conn p
