-- ===== src/Wire/RoundTrip.antt =====
-- Decoding after encoding (utils.c, lines 61-117): when it gives the arguments back.
use redis_keyspace_amqp.Base.{
  ◌+◌, ◌*◌, ◌%◌, ◌≤◌, ◌≡◌, ◌≢◌, refl, sym, ◌∙◌, ap, Bool, true, false, not, ◌&&◌, List, [], ◌∷◌,
  ◌++◌, Byte, Bytes, c_str, ◌==◌, length, arith, all, all-append, NoNul, c_str-eq_self, c_str-NoNul,
  length-c_str-le, length-append, append-nil,
}
use redis_keyspace_amqp.Memory.{done, ◌>>=◌, Allocator, ptr_size, u64_mod}
use redis_keyspace_amqp.Wire.{
  newline, total_len, join, redis_args_to_serialized_string, serialized_string_to_redis_args,
}
use redis_keyspace_amqp.Wire.Fields.{fields, cons_first, onto, onto-closed, onto-open, decode-fits}

-- Neither NUL nor a newline: what the format can carry inside an argument.
abbrev pub wire_byte : Byte → Bool
wire_byte b = not (b == 0) && not (b == newline)

abbrev pub IsWord : Bytes → Type 0
IsWord a = all wire_byte a ≡ true

-- Every argument is a word, and the last is not empty.
abbrev pub Sendable : List Bytes → Type 0
Sendable [] = ⊥
Sendable (a ∷ []) = IsWord a × (a ≢ [])
Sendable (a ∷ b ∷ args) = IsWord a × Sendable (b ∷ args)

abbrev pub AreWords : List Bytes → Type 0
AreWords [] = Unit
AreWords (a ∷ args) = IsWord a × AreWords args

-- The arguments but for an empty last one.
abbrev pub trimmed : List Bytes → List Bytes
trimmed [] = []
trimmed ([] ∷ []) = []
trimmed ((b ∷ a) ∷ []) = (b ∷ a) ∷ []
trimmed (a ∷ b ∷ args) = a ∷ trimmed (b ∷ args)

IsWord-NoNul : (a : Bytes) → IsWord a → NoNul a
IsWord-NoNul [] h = refl
IsWord-NoNul (b ∷ a) h = ground (arith, IsWord-NoNul a)

pub IsWord-c_str : (a : Bytes) → IsWord a → c_str a ≡ a
IsWord-c_str a h = c_str-eq_self a (IsWord-NoNul a h)

fields-word : (w text : Bytes) → IsWord w → fields (w ++ text) ≡ onto w (fields text)
fields-word [] text h = refl
fields-word (c ∷ w) text h =
    let m : ((c == newline) ≡ false) × IsWord w = ground arith in
    rw m.0 (ap (cons_first c) (fields-word w text m.1))

onto-trimmed : (a : Bytes) → onto a [] ≡ trimmed (a ∷ [])
onto-trimmed [] = refl
onto-trimmed (b ∷ a) = onto-open b a

pub fields-join : (args : List Bytes) → AreWords args → fields (join args) ≡ trimmed args
unfolding join
fields-join [] s = refl
fields-join (a ∷ []) s =
    ap fields (IsWord-c_str a s.0 ∙ sym (append-nil a)) ∙ fields-word a [] s.0 ∙ onto-trimmed a
fields-join (a ∷ b ∷ args) s =
    ap (λ x. fields (x ++ newline ∷ join (b ∷ args))) (IsWord-c_str a s.0)
    ∙ fields-word a (newline ∷ join (b ∷ args)) s.0
    ∙ onto-closed a (fields (join (b ∷ args)))
    ∙ ap (◌∷◌ a) (fields-join (b ∷ args) s.1)

length-trimmed-le : (args : List Bytes) → length (trimmed args) ≤ length args
length-trimmed-le [] = omega arith
length-trimmed-le ([] ∷ []) = omega arith
length-trimmed-le ((b ∷ a) ∷ []) = omega arith
length-trimmed-le (a ∷ b ∷ args) = omega (arith, length-trimmed-le (b ∷ args))

pub Sendable-AreWords : (args : List Bytes) → Sendable args → AreWords args
Sendable-AreWords [] s = absurd s
Sendable-AreWords (a ∷ []) s = (s.0, tt)
Sendable-AreWords (a ∷ b ∷ args) s = (s.0, Sendable-AreWords (b ∷ args) s.1)

pub Sendable-trimmed : (args : List Bytes) → Sendable args → trimmed args ≡ args
Sendable-trimmed [] s = absurd s
Sendable-trimmed ([] ∷ []) s = absurd (s.1 refl)
Sendable-trimmed ((b ∷ a) ∷ []) s = refl
Sendable-trimmed (a ∷ b ∷ args) s = ap (◌∷◌ a) (Sendable-trimmed (b ∷ args) s.1)

-- What `join` gives holds no NUL, so the receiver reads all of it.
pub join-NoNul : (args : List Bytes) → NoNul (join args)
unfolding join
join-NoNul [] = refl
join-NoNul (a ∷ []) = c_str-NoNul a
join-NoNul (a ∷ b ∷ args) =
    all-append (λ x. not (x == 0)) (c_str a) (newline ∷ join (b ∷ args)) (c_str-NoNul a)
      (join-NoNul (b ∷ args))

length-join-le :
    (a : Bytes) (args : List Bytes)
    → length (join (a ∷ args)) + 1 ≤ total_len (a ∷ args) + length (a ∷ args)
unfolding join
length-join-le a [] = omega (arith, length-c_str-le a)
length-join-le a (b ∷ args) = omega (
  arith,
  length-c_str-le a,
  length-append (c_str a) (newline ∷ join (b ∷ args)),
  length-join-le b args,
)

Sendable-some : (args : List Bytes) → Sendable args → args ≢ []
Sendable-some [] s = absurd s
Sendable-some (a ∷ args) s = λ e. cc

-- A word and more: the string ends where the second does.
pub c_str-NoNul_append : (a b : Bytes) → NoNul a → c_str (a ++ b) ≡ a ++ c_str b
unfolding c_str
c_str-NoNul_append [] b h = refl
c_str-NoNul_append (x ∷ a) b h =
    let m : ((x == 0) ≡ false) × NoNul a = ground arith in
    rw m.0 (ap (◌∷◌ x) (c_str-NoNul_append a b m.1))

module _ (al : Allocator) where
  -- The sender's block, asked for with 8 times the arguments' bytes, holds them with one byte more
  -- for each argument.
  abbrev pub HasRoom : List Bytes → Type 0
  HasRoom args = total_len args + length args ≤ al.usable ((ptr_size * total_len args) % u64_mod)

  encode-words :
      (args : List Bytes)
      → args ≢ []
      → HasRoom args
      → redis_args_to_serialized_string al args ≡ done (join args)
  unfolding redis_args_to_serialized_string
  encode-words [] some_arg room = absurd (some_arg refl)
  encode-words (a ∷ args) some_arg room = ground (arith, length-join-le a args)

  pub encode-join :
      (args : List Bytes)
      → Sendable args
      → HasRoom args
      → redis_args_to_serialized_string al args ≡ done (join args)
  encode-join args s room = encode-words args (Sendable-some args s) room

  decode-words :
      (args : List Bytes)
      → AreWords args
      → ptr_size * length args ≤ al.usable ptr_size
      → ptr_size ≤ al.usable 0
      → (beyond : Bytes) → c_str beyond ≡ []
      → serialized_string_to_redis_args al (join args ++ beyond) ≡ done (trimmed args)
  decode-words args s fit first beyond ended =
      let text = join args ++ beyond in
      let whole : c_str text ≡ join args =
        c_str-NoNul_append (join args) beyond (join-NoNul args)
        ∙ ap (λ xs. join args ++ xs) ended
        ∙ append-nil (join args) in
      let same : fields (c_str text) ≡ trimmed args = ap fields whole ∙ fields-join args s in
      decode-fits al text (omega (arith, ap (λ x. length x) same, length-trimmed-le args)) first
      ∙ ap done same

  pub decode-join :
      (args : List Bytes)
      → Sendable args
      → ptr_size * length args ≤ al.usable ptr_size
      → ptr_size ≤ al.usable 0
      → (beyond : Bytes) → c_str beyond ≡ []
      → serialized_string_to_redis_args al (join args ++ beyond) ≡ done args
  decode-join args s fit first beyond ended =
      decode-words args (Sendable-AreWords args s) fit first beyond ended
      ∙ ap done (Sendable-trimmed args s)

  -- One argument or more, without NUL and newline, come back unchanged from the text that is sent
  -- for them, with a NUL or nothing right behind it, except that the last is lost if it is empty,
  -- and neither conversion faults. The sender's block, asked for with 8 times the arguments' bytes,
  -- has to hold them with one more for each argument; the receiver's blocks, asked for with 0 bytes
  -- and with 8, have to hold a pointer and a pointer for each argument.
  pub decode-encode :
      (args : List Bytes)
      → args ≢ []
      → AreWords args
      → HasRoom args
      → ptr_size * length args ≤ al.usable ptr_size
      → ptr_size ≤ al.usable 0
      → (beyond : Bytes) → c_str beyond ≡ []
      → (redis_args_to_serialized_string al args >>= λ text.
          serialized_string_to_redis_args al (text ++ beyond))
        ≡ done (trimmed args)
  decode-encode args some_arg s room fit first beyond ended =
      rw (encode-words args some_arg room) (decode-words args s fit first beyond ended)
