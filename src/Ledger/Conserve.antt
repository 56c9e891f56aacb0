-- ===== src/Ledger/Conserve.antt =====
-- No sequence of actions makes an event up, loses one silently, or sends one twice.
use mathlib.Core.List.{Perm, perm_append_comm, map-append}
use mathlib.Core.List.Perm
use redis_keyspace_amqp.Base.{
  ◌≡◌, sym, ◌∙◌, ap, subst, List, [], ◌∷◌, ◌++◌, map, Bytes, c_str, append-nil, append_assoc,
}
use redis_keyspace_amqp.Ledger.{
  Ledger, Action, publish, store, replace, send, act, acts, taken, taken_all, lost, lost_all,
  deliver, oldest,
}
use redis_keyspace_amqp.Storage.Push.{tail}

-- All texts that a ledger holds.
abbrev pub holds : Ledger → List Bytes
holds v = v.sent ++ map c_str v.waiting

perm_of_eq : {xs ys : List Bytes} → xs ≡ ys → Perm xs ys
perm_of_eq {xs} e = subst (λ zs. Perm xs zs) e Perm.rfl

-- The last two parts change places.
perm_swap_right : (x y z : List Bytes) → Perm ((x ++ y) ++ z) ((x ++ z) ++ y)
perm_swap_right x y z =
    Perm.trans (perm_of_eq (append_assoc x y z)) (
      Perm.trans (Perm.append_left x (perm_append_comm y z))
        (perm_of_eq (sym (append_assoc x z y))))

front_middle : (x y z : List Bytes) → Perm ((x ++ y) ++ z) (x ++ (y ++ z))
front_middle x y z = perm_of_eq (append_assoc x y z)

-- An action that is given one text more, or one less.
send-Perm : (d q : List Bytes) → Perm (holds (deliver d q)) (d ++ map c_str q)
send-Perm d [] = Perm.rfl
send-Perm d (m ∷ q) = front_middle d (c_str m ∷ []) (map c_str q)

drop-Perm : (d q : List Bytes) → Perm ((d ++ map c_str (tail q)) ++ oldest q) (d ++ map c_str q)
drop-Perm d [] = perm_of_eq (append-nil (d ++ []))
drop-Perm d (m ∷ q) =
    Perm.trans (perm_swap_right d (map c_str q) (c_str m ∷ []))
      (front_middle d (c_str m ∷ []) (map c_str q))

pad : {xs ys : List Bytes} → Perm xs ys → Perm (xs ++ []) (ys ++ [])
pad p = Perm.append_right [] p

store-Perm :
    (m : Bytes) (d q : List Bytes)
    → Perm (d ++ map c_str (q ++ m ∷ [])) ((d ++ map c_str q) ++ c_str m ∷ [])
store-Perm m d q = perm_of_eq (
    ap (λ xs. d ++ xs) (map-append c_str q (m ∷ []))
    ∙ sym (append_assoc d (map c_str q) (c_str m ∷ [])))

act-Perm : (a : Action) (v : Ledger) → Perm (holds (act a v) ++ lost a v) (holds v ++ taken a)
act-Perm (publish m) v =
    Perm.trans (perm_of_eq (append-nil _))
      (perm_swap_right v.sent (c_str m ∷ []) (map c_str v.waiting))
act-Perm (store m) v = Perm.trans (perm_of_eq (append-nil _)) (store-Perm m v.sent v.waiting)
act-Perm (replace m) v =
    let kept = v.sent ++ map c_str (tail v.waiting) in
    Perm.trans (Perm.append_right (oldest v.waiting) (store-Perm m v.sent (tail v.waiting))) (
      Perm.trans (perm_swap_right kept (c_str m ∷ []) (oldest v.waiting))
        (Perm.append_right (c_str m ∷ []) (drop-Perm v.sent v.waiting)))
act-Perm send v = pad (send-Perm v.sent v.waiting)

-- Whatever the actions are, what is held at the end and what was given up on the way is, up to
-- order, what was held at the start and what was taken in on the way.
pub acts-Perm :
    (as' : List Action) (v : Ledger)
    → Perm (holds (acts as' v) ++ lost_all as' v) (holds v ++ taken_all as')
unfolding acts lost_all taken_all
acts-Perm [] v = Perm.rfl
acts-Perm (a ∷ as') v =
    let end = holds (acts as' (act a v)) in
    let later = lost_all as' (act a v) in
    Perm.trans (perm_of_eq (sym (append_assoc end (lost a v) later))) (
      Perm.trans (perm_swap_right end (lost a v) later) (
        Perm.trans (Perm.append_right (lost a v) (acts-Perm as' (act a v))) (
          Perm.trans (perm_swap_right (holds (act a v)) (taken_all as') (lost a v)) (
            Perm.trans (Perm.append_right (taken_all as') (act-Perm a v))
              (front_middle (holds v) (taken a) (taken_all as'))))))
