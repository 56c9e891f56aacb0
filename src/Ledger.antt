-- ===== src/Ledger.antt =====
-- What the module promises for its events, as an abstract machine: the broker's queue and the
-- fallback storage, without connections, timers and counters. library.c, lines 34-131, is what
-- implements it.
pub mod Conserve
pub mod Flow
pub mod Entries
use redis_keyspace_amqp.Base.{
  ℕ, ◌≡◌, refl, sym, ◌∙◌, ap, ap₂, List, [], ◌∷◌, ◌++◌, map, Bytes, c_str, append-nil, append_assoc,
}
use redis_keyspace_amqp.Storage.Push.{tail}

-- What the broker has taken, oldest first, and what waits in the storage.
pub record Ledger : Type 0 where
  pub sent : List Bytes
  pub waiting : List Bytes

-- `publish`: a new event goes to the broker. `send`: the oldest stored event does. `store`: a new
-- event goes to the end of the storage. `replace`: so does it, and the oldest stored event is given
-- up for it.
pub data Action : Type 0 where
  publish store replace : Bytes → Action
  send : Action

abbrev pub deliver : List Bytes → List Bytes → Ledger
deliver sent [] = record { sent = sent; waiting = [] }
deliver sent (m ∷ waiting) = record { sent = sent ++ c_str m ∷ []; waiting = waiting }

abbrev pub act : Action → Ledger → Ledger
act (publish m) v = record v { sent = v.sent ++ c_str m ∷ [] }
act (store m) v = record v { waiting = v.waiting ++ m ∷ [] }
act send v = deliver v.sent v.waiting
act (replace m) v = record v { waiting = tail v.waiting ++ m ∷ [] }

unfoldable pub acts : List Action → Ledger → Ledger
acts [] v = v
acts (a ∷ as') v = acts as' (act a v)

-- The texts of the new events, and of the events that were given up.
abbrev pub taken : Action → List Bytes
taken (publish m) = c_str m ∷ []
taken (store m) = c_str m ∷ []
taken (replace m) = c_str m ∷ []
taken send = []

unfoldable pub taken_all : List Action → List Bytes
taken_all [] = []
taken_all (a ∷ as') = taken a ++ taken_all as'

abbrev pub oldest : List Bytes → List Bytes
oldest [] = []
oldest (m ∷ ms) = c_str m ∷ []

abbrev pub lost : Action → Ledger → List Bytes
lost (replace m) v = oldest v.waiting
lost _ v = []

unfoldable pub lost_all : List Action → Ledger → List Bytes
lost_all [] v = []
lost_all (a ∷ as') v = lost a v ++ lost_all as' (act a v)

pub acts-append : (as' bs : List Action) (v : Ledger) → acts (as' ++ bs) v ≡ acts bs (acts as' v)
unfolding acts
acts-append [] bs v = refl
acts-append (a ∷ as') bs v = acts-append as' bs (act a v)

pub taken_all-append :
    (as' bs : List Action) → taken_all (as' ++ bs) ≡ taken_all as' ++ taken_all bs
unfolding taken_all
taken_all-append [] bs = refl
taken_all-append (a ∷ as') bs =
    ap (λ xs. taken a ++ xs) (taken_all-append as' bs)
    ∙ sym (append_assoc (taken a) (taken_all as') (taken_all bs))

-- One `send` for each message of a run.
unfoldable pub sends : List Bytes → List Action
sends [] = []
sends (m ∷ ms) = send ∷ sends ms

pub acts-sends :
    (ms left d : List Bytes)
    → acts (sends ms) (record { sent = d; waiting = ms ++ left })
      ≡ record { sent = d ++ map c_str ms; waiting = left }
unfolding acts sends
acts-sends [] left d = ap (λ xs. record { sent = xs; waiting = left }) (sym (append-nil d))
acts-sends (m ∷ ms) left d =
    acts-sends ms left (d ++ c_str m ∷ [])
    ∙ ap (λ xs. record { sent = xs; waiting = left }) (append_assoc d (c_str m ∷ []) (map c_str ms))

pub taken_all-sends : (ms : List Bytes) → taken_all (sends ms) ≡ []
unfolding taken_all sends
taken_all-sends [] = refl
taken_all-sends (m ∷ ms) = taken_all-sends ms
