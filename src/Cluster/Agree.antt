-- ===== src/Cluster/Agree.antt =====
-- Two nodes of a cluster (library.c, lines 133-210, 311-317 and 410-506) come to the same settings: the
-- second follows the first by what is on the bus.
use mathlib.Core.List.{map-append}
use redis_keyspace_amqp.Base.{◌≡◌, refl, sym, ◌∙◌, ap, List, [], ◌∷◌, ◌++◌, map, Bytes, c_str}
use redis_keyspace_amqp.Memory.{Outcome, done, fault, ◌>>=◌}
use redis_keyspace_amqp.Wire.{join}
use redis_keyspace_amqp.System.{Config, Env, System}
use redis_keyspace_amqp.Storage.{ListKey}
use redis_keyspace_amqp.Cluster.Dispatch.{Repeated, name_of, receive, Carried}
use redis_keyspace_amqp.Cluster.Settings.{apply}
use redis_keyspace_amqp.Cluster.Bus.{last_text, told-join, enter-apply, receive-apply}
use redis_keyspace_amqp.Cluster.Nodes.{
  Nodes, BusReaches, start, command, delivery, first_inner, second_inner, inner-config,
}

bind_done : (o : Outcome Config) → (o >>= λ x. done x) ≡ o
bind_done (done x) = refl
bind_done fault = refl

bind_then :
    (o : Outcome Config) (f g h : Config → Outcome Config)
    → ((x : Config) → h x ≡ (f x >>= g))
    → (o >>= h) ≡ ((o >>= f) >>= g)
bind_then (done x) f g h e = e x
bind_then fault f g h e = refl

cons_inj : {x y : Bytes} {xs ys : List Bytes} → x ∷ xs ≡ y ∷ ys → (x ≡ y) × (xs ≡ ys)
cons_inj e = (cc, cc)

pub done_inj : {c d : Config} → done c ≡ done d → c ≡ d
done_inj e = cc

module _ {Db : Type 0} (key : ListKey Db) (sender receiver : Env) where
  abbrev pub Order : Type 0
  Order = Repeated × List Bytes

  abbrev pub text_of : Order → Bytes
  text_of (c, args) = join (name_of c ∷ args)

  abbrev pub AreCarried : List Order → Type 0
  AreCarried [] = Unit
  AreCarried ((c, args) ∷ xs) = Carried key receiver (name_of c ∷ args) × AreCarried xs

  -- The settings after the commands that are still on the bus.
  abbrev pub pending : List Order → Config → Outcome Config
  pending [] c = done c
  pending ((r, args) ∷ xs) c = apply receiver.allocator r (name_of r ∷ args) c >>= pending xs

  -- The second node is behind by what is on the bus.
  pub record Behind (n : Nodes Db) : Type 0 where
    pub orders : List Order
    pub texts : n.bus ≡ map text_of orders
    pub carried : AreCarried orders
    pub settings : pending orders n.second.config ≡ done n.first.config

  pending-append :
      (xs : List Order) (c : Repeated) (args : List Bytes) (d : Config)
      → pending (xs ++ (c, args) ∷ []) d
        ≡ (pending xs d >>= apply receiver.allocator c (name_of c ∷ args))
  pending-append [] c args d = bind_done (apply receiver.allocator c (name_of c ∷ args) d)
  pending-append ((r, more) ∷ xs) c args d =
      bind_then (apply receiver.allocator r (name_of r ∷ more) d) (pending xs) _ _
        λ e. pending-append xs c args e

  carried-append :
      (xs : List Order) (x : Order)
      → AreCarried xs
      → AreCarried (x ∷ [])
      → AreCarried (xs ++ x ∷ [])
  carried-append [] x cs k = k
  carried-append (y ∷ xs) x (c, cs) k = (c, carried-append xs x cs k)

  command-Behind :
      (n : Nodes Db) (s : System Db) (c : Repeated) (args : List Bytes)
      → sender.allocator ≡ receiver.allocator
      → Carried key receiver (name_of c ∷ args)
      → apply sender.allocator c (name_of c ∷ args) n.first.config ≡ done s.config
      → Behind n
      → Behind (record n { first = s; bus = n.bus ++ text_of (c, args) ∷ [] })
  command-Behind n s c args same carried does b = record {
    orders = b.orders ++ (c, args) ∷ [];
    texts =
        ap (λ ts. ts ++ text_of (c, args) ∷ []) b.texts
        ∙ sym (map-append text_of b.orders ((c, args) ∷ []));
    carried = carried-append b.orders (c, args) b.carried (carried, tt);
    settings =
        pending-append b.orders c args n.second.config
        ∙ ap (λ o. o >>= apply receiver.allocator c (name_of c ∷ args)) b.settings
        ∙ ap (λ al. apply al c (name_of c ∷ args) n.first.config) (sym same)
        ∙ does;
  }

  delivery-Behind :
      (n : Nodes Db) (t : System Db) (text beyond : Bytes) (bus : List Bytes) (orders : List Order)
      → text ∷ bus ≡ map text_of orders
      → AreCarried orders
      → pending orders n.second.config ≡ done n.first.config
      → c_str beyond ≡ []
      → receive key receiver text beyond n.second ≡ done t
      → Behind (record n { second = t; bus = bus })
  delivery-Behind n t text beyond bus [] e carried settings ended ends = cc
  delivery-Behind n t text beyond bus ((c, args) ∷ xs) e (carried, later) settings ended ends =
      let (same, rest) = cons_inj e in
      let does =
        receive-apply key receiver c args n.second t carried beyond ended
          (ap (λ x. receive key receiver x beyond n.second) (sym same) ∙ ends) in
      record {
        orders = xs;
        texts = rest;
        carried = later;
        settings = ap (λ o. o >>= pending xs) (sym does) ∙ settings;
      }

  config-Behind :
      (n : Nodes Db) (s t : System Db)
      → s.config ≡ n.first.config
      → t.config ≡ n.second.config
      → Behind n
      → Behind (record n { first = s; second = t })
  config-Behind n s t e f b = record {
    orders = b.orders;
    texts = b.texts;
    carried = b.carried;
    settings = ap (pending b.orders) f ∙ b.settings ∙ ap done (sym e);
  }

  pub BusReaches-Behind :
      {n m : Nodes Db}
      → sender.allocator ≡ receiver.allocator
      → Behind n
      → BusReaches key sender receiver n m
      → Behind m
  BusReaches-Behind same b start = b
  BusReaches-Behind {n} same b (command {s = s} c args text cluster sent carried tells ends talk) =
      let argv = name_of c ∷ args in
      let right : text ≡ join argv =
        ap last_text (sym tells ∙ told-join key sender c argv n.first cluster sent) in
      BusReaches-Behind same
        (rw right (
          command-Behind n s c args same carried
            (enter-apply key sender c argv n.first s cluster sent ends) b))
        talk
  BusReaches-Behind {n} same b (delivery {t = t} text beyond bus e ended ends talk) =
      BusReaches-Behind same
        (delivery-Behind n t text beyond bus b.orders (sym e ∙ b.texts) b.carried b.settings ended
          ends)
        talk
  BusReaches-Behind {n} same b (first_inner {s = s} e inner ends talk) =
      BusReaches-Behind same
        (config-Behind n s n.second (inner-config key sender e n.first s inner ends) refl b) talk
  BusReaches-Behind {n} same b (second_inner {t = t} e inner ends talk) =
      BusReaches-Behind same
        (config-Behind n n.first t refl (inner-config key receiver e n.second t inner ends) b) talk

  none_left :
      (orders : List Order) (c d : Config)
      → [] ≡ map text_of orders
      → pending orders c ≡ done d
      → c ≡ d
  none_left [] c d e settings = done_inj settings
  none_left (x ∷ xs) c d e settings = cc

  -- If two nodes have equal settings and allocators, and nothing is on the bus, then whatever
  -- commands clients give to the first, of six that the bus carries, in any interleaving with
  -- deliveries, events and timer callbacks on both: whenever the bus is empty again, their settings are equal.
  pub BusReaches-agrees :
      {n m : Nodes Db}
      → sender.allocator ≡ receiver.allocator
      → n.bus ≡ []
      → n.second.config ≡ n.first.config
      → BusReaches key sender receiver n m
      → m.bus ≡ []
      → m.second.config ≡ m.first.config
  BusReaches-agrees {n} {m} same empty agree talk over =
      let b =
        BusReaches-Behind same
          (record { orders = []; texts = empty; carried = tt; settings = ap done agree }) talk in
      none_left b.orders m.second.config m.first.config (sym over ∙ b.texts) b.settings
