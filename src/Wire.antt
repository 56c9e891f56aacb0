-- ===== src/Wire.antt =====
-- utils.c, lines 61-117: a command's arguments as one text for the cluster bus, and back. Only
-- element 0 of the local arrays `serializedData`, `out` and `buff` is used, so each is a variable
-- here; `strlen` and `strcpy` see what stands before the first NUL.
pub mod RoundTrip
pub mod Fields
pub mod Faults
use redis_keyspace_amqp.Base.{
  ℕ, zero, suc, ◌+◌, ◌*◌, ◌%◌, Bool, List, [], ◌∷◌, ◌++◌, map, Byte, Bytes, c_str, ◌==◌,
  if◌then◌else◌, length,
}
use redis_keyspace_amqp.Memory.{
  Outcome, done, fault, ◌>>=◌, ◌>>◌, Allocator, ptr_size, u64_mod, check,
}

abbrev pub newline : Byte
newline = 10

-- lines 65-71: lengths as Redis keeps them, bytes behind a NUL included
abbrev pub total_len : List Bytes → ℕ
total_len [] = 0
total_len (a ∷ args) = length a + total_len args

-- lines 74-81: strcpy, then strcat of "\n" and the next argument
unfoldable pub join : List Bytes → Bytes
join [] = []
join (a ∷ []) = c_str a
join (a ∷ b ∷ args) = c_str a ++ newline ∷ join (b ∷ args)

-- The last store is the NUL behind the text. No argument at all leaves the block unwritten, and
-- reading it has no meaning.
unfoldable pub redis_args_to_serialized_string : Allocator → List Bytes → Outcome Bytes
unfolding join
redis_args_to_serialized_string al [] = fault
redis_args_to_serialized_string al (a ∷ argv) = do
  let text = join (a ∷ argv)
  check (length text + 1) (al.usable ((ptr_size * total_len (a ∷ argv)) % u64_mod))
  done text

-- `(*out)[*argc] = …`, into the block behind `out`
abbrev store_arg : ℕ → List Bytes → Bytes → Outcome (List Bytes)
store_arg block out buff = do check (ptr_size * suc (length out)) block; done (out ++ buff ∷ [])

-- lines 97-112: line 99 asks for one pointer each time
unfoldable pub split_loop : Allocator → ℕ → List Bytes → Bytes → Bytes → Outcome (List Bytes)
split_loop al block out [] [] = done out
split_loop al block out (b ∷ buff) [] = store_arg block out (b ∷ buff)
split_loop al block out buff (c ∷ text) =
    let ended = store_arg (al.usable ptr_size) out buff >>= λ out'.
    split_loop al (al.usable ptr_size) out' [] text in
    let more = split_loop al block out (buff ++ c ∷ []) text in if c == newline then ended else more

unfoldable pub serialized_string_to_redis_args : Allocator → Bytes → Outcome (List Bytes)
unfolding split_loop
serialized_string_to_redis_args al text = split_loop al (al.usable 0) [] [] (c_str text)
