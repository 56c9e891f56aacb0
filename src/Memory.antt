-- ===== src/Memory.antt =====
-- Heap blocks: what the code relies on of `RedisModule_Alloc`, `RedisModule_Realloc` and
-- `RedisModule_Free`, and the copies of C strings that utils.c makes (lines 11-26).
use redis_keyspace_amqp.Base.{
  ℕ, ◌≤◌, Bool, true, false, [], Bytes, c_str, length, leb, if◌then◌else◌,
}

-- A run with a write outside its block, or a `free` of what the heap did not give, is a `fault`:
-- C gives it no meaning.
pub data Outcome {ℓ} (A : Type ℓ) : Type ℓ where
  done : A → Outcome A
  fault : Outcome A

infixl 5 ◌>>=◌ ◌>>◌
abbrev pub ◌>>=◌ {ℓ κ} : {A : Type ℓ} {B : Type κ} → Outcome A → (A → Outcome B) → Outcome B
done a >>= f = f a
fault >>= f = fault

abbrev pub ◌>>◌ {ℓ} : {B : Type ℓ} → Outcome (Unit {0}) → Outcome B → Outcome B
m >> k = m >>= λ _. k

-- The bytes that stand behind a block asked for with `n` bytes: never fewer, and often more. A
-- failed allocation ends the server, so no call returns NULL.
pub record Allocator : Type 0 where
  pub usable : ℕ → ℕ
  pub usable-le : (n : ℕ) → n ≤ usable n

-- sizeof(char*) on the 64-bit platforms of the module
abbrev pub ptr_size : ℕ
ptr_size = 8

abbrev pub u8_mod : ℕ
u8_mod = 256

abbrev pub u16_mod : ℕ
u16_mod = 65536

abbrev pub u32_mod : ℕ
u32_mod = 4294967296

-- size_t
abbrev pub u64_mod : ℕ
u64_mod = 18446744073709551616

-- A store to a block of `block` bytes that ends at byte `last`.
abbrev pub check : ℕ → ℕ → Outcome (Unit {0})
check last block = if leb last block then done tt else fault

-- A `char*`: NULL, a string constant of the program, or a block of the heap.
pub data Text : Type 0 where
  null : Text
  literal : Bytes → Text
  heap : Bytes → Text

abbrev pub text_bytes : Text → Bytes
text_bytes null = []
text_bytes (literal s) = s
text_bytes (heap s) = s

-- `RedisModule_Free` of a constant is a fault.
unfoldable pub free : Text → Outcome (Unit {0})
free null = done tt
free (literal s) = fault
free (heap s) = done tt

unfoldable pub copy_string_allocated : Bytes → Text → Bool → Outcome Text
unfolding free
copy_string_allocated input out true = do free out; done (heap (c_str input))
copy_string_allocated input out false = done (heap (c_str input))

-- amqp_bytes_t
pub record AmqpBytes : Type 0 where
  pub len : ℕ
  pub bytes : Text

unfoldable pub copy_amqp_string_allocated : Bytes → AmqpBytes → Bool → Outcome AmqpBytes
unfolding copy_string_allocated
copy_amqp_string_allocated input out need_free = do
  b ← copy_string_allocated input out.bytes need_free
  done (record { len = length (c_str input); bytes = b })
