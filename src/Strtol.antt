-- ===== src/Strtol.antt =====
-- The standard library's `strtol (text, NULL, 10)`, by which library.c reads every number
-- (lines 244-270 and 382), on a 64-bit `long`.
pub mod Bounds
use redis_keyspace_amqp.Base.{
  ℕ, ◌+◌, ◌-◌, ◌*◌, ◌%◌, Bool, ◌&&◌, ◌||◌, [], ◌∷◌, Byte, Bytes, ◌==◌, ltb, leb, if◌then◌else◌,
}
use redis_keyspace_amqp.Memory.{u64_mod}

abbrev is_space : Byte → Bool
is_space c = c == 32 || (leb 9 c && leb c 13)

abbrev pub is_digit : Byte → Bool
is_digit c = leb 48 c && leb c 57

unfoldable pub skip_space : Bytes → Bytes
skip_space [] = []
skip_space (c ∷ s) = let later = skip_space s in if is_space c then later else c ∷ s

-- The number of the digits at the start of the text.
unfoldable pub read_digits : ℕ → Bytes → ℕ
read_digits acc [] = acc
read_digits acc (c ∷ s) =
    let later = read_digits (acc * 10 + (c - 48)) s in if is_digit c then later else acc

-- 2 ^ 63
abbrev pub long_limit : ℕ
long_limit = 9223372036854775808

-- A `long` is its bit pattern, below 2 ^ 64; a number out of range becomes LONG_MAX or LONG_MIN.
abbrev pub long_pos : ℕ → ℕ
long_pos n = if ltb n long_limit then n else long_limit - 1

abbrev pub long_neg : ℕ → ℕ
long_neg n = if ltb n long_limit then (u64_mod - n) % u64_mod else long_limit

abbrev pub read_signed : Bytes → ℕ
read_signed [] = 0
read_signed (c ∷ s) =
    if c == b'-'
    then long_neg (read_digits 0 s)
    else if c == b'+'
    then long_pos (read_digits 0 s)
    else long_pos (read_digits 0 (c ∷ s))

unfoldable pub strtol : Bytes → ℕ
unfolding skip_space read_digits
strtol s = read_signed (skip_space s)
