-- ===== src/Wire/Faults.antt =====
-- Where the two conversions (utils.c, lines 61-117) write past a block.
use redis_keyspace_amqp.Base.{
  refl, ◌∙◌, ap, true, length-append, c_str, ◌++◌, ◌+◌, ◌*◌, ◌%◌, ◌<◌, ◌≡◌, ◌↔◌, List, [], ◌∷◌,
  Bytes, length, arith, c_str-eq_self,
}
use redis_keyspace_amqp.Memory.{fault, Allocator, ptr_size, u64_mod}
use redis_keyspace_amqp.Wire.{
  newline, total_len, join, redis_args_to_serialized_string, serialized_string_to_redis_args,
}
use redis_keyspace_amqp.Wire.Fields.{fields, has_newline, decode-fields}
use redis_keyspace_amqp.Wire.RoundTrip.{
  IsWord-c_str, AreWords, Sendable, Sendable-AreWords, Sendable-trimmed, fields-join, join-NoNul,
}

has_newline-middle : (x y : Bytes) → has_newline (x ++ newline ∷ y) ≡ true
has_newline-middle [] y = refl
has_newline-middle (c ∷ x) y = ground (arith, has_newline-middle x y)

length-join :
    (a : Bytes) (args : List Bytes)
    → AreWords (a ∷ args)
    → length (join (a ∷ args)) + 1 ≡ total_len (a ∷ args) + length (a ∷ args)
unfolding join
length-join a [] w = omega (arith, ap (λ x. length x) (IsWord-c_str a w.0))
length-join a (b ∷ args) w = omega (
  arith,
  ap (λ x. length x) (IsWord-c_str a w.0),
  length-append (c_str a) (newline ∷ join (b ∷ args)),
  length-join b args w.1,
)

module _ (al : Allocator) where
  -- With fewer than 16 bytes behind the block that line 99 asks for, decoding the text of any
  -- sendable command of two arguments or more writes past the block, however short they are.
  pub decode-two_args :
      (a b : Bytes) (args : List Bytes)
      → al.usable ptr_size < 16
      → Sendable (a ∷ b ∷ args)
      → serialized_string_to_redis_args al (join (a ∷ b ∷ args)) ≡ fault
  unfolding join
  decode-two_args a b args small s =
      let argv = a ∷ b ∷ args in
      let whole = c_str-eq_self (join argv) (join-NoNul argv) in
      let same : fields (c_str (join argv)) ≡ argv =
        ap fields whole ∙ fields-join argv (Sendable-AreWords argv s) ∙ Sendable-trimmed argv s in
      let lines : has_newline (c_str (join argv)) ≡ true =
        ap has_newline whole ∙ has_newline-middle (c_str a) (join (b ∷ args)) in
      let many = ap (λ x. length x) same in decode-fields al (join argv) ∙ rw lines (ground arith)

  -- Encoding a command of arguments without NUL and newline writes past the block exactly when the
  -- block asked for with 8 times the arguments' bytes does not hold those bytes with one more for
  -- each argument: too many empty ones are enough.
  pub encode-faults_iff :
      (a : Bytes) (args : List Bytes)
      → AreWords (a ∷ args)
      → (redis_args_to_serialized_string al (a ∷ args) ≡ fault) ↔ (
          al.usable ((ptr_size * total_len (a ∷ args)) % u64_mod)
          < total_len (a ∷ args) + length (a ∷ args))
  unfolding redis_args_to_serialized_string
  encode-faults_iff a args w = ground (arith, length-join a args w)
