-- ===== src/Strtol/Bounds.antt =====
-- What `strtol` makes of the numbers that are written in arguments.
use redis_keyspace_amqp.Base.{
  ℕ, zero, suc, ◌+◌, ◌-◌, ◌*◌, ◌/◌, ◌%◌, ◌<◌, ◌≡◌, refl, ◌∙◌, ap, true, [], ◌∷◌, Bytes, all,
  all-append, arith,
}
use redis_keyspace_amqp.Memory.{u64_mod}
use redis_keyspace_amqp.Event.{digits, decimal}
use redis_keyspace_amqp.Event.Message.{value, value-digits, digit_limit}
use redis_keyspace_amqp.Strtol.{
  is_digit, skip_space, read_digits, long_pos, long_neg, read_signed, strtol,
}

abbrev AllDigits : Bytes → Type 0
AllDigits s = all is_digit s ≡ true

digits-AllDigits : (fuel n : ℕ) → AllDigits (digits fuel n)
unfolding digits
digits-AllDigits zero n = ground arith
digits-AllDigits (suc fuel) n = ground (
  arith,
  all-append is_digit (digits fuel (n / 10)) ((48 + n % 10) ∷ []) (digits-AllDigits fuel (n / 10)),
)

read_digits-value : (acc : ℕ) (s : Bytes) → AllDigits s → read_digits acc s ≡ value acc s
unfolding read_digits value
read_digits-value acc [] h = refl
read_digits-value acc (c ∷ s) h = ground (arith, read_digits-value (acc * 10 + (c - 48)) s)

skip_space-digits : (s : Bytes) → AllDigits s → skip_space s ≡ s
unfolding skip_space
skip_space-digits [] h = refl
skip_space-digits (c ∷ s) h = ground arith

read_signed-digits : (s : Bytes) → AllDigits s → read_signed s ≡ long_pos (read_digits 0 s)
unfolding read_digits
read_signed-digits [] h = refl
read_signed-digits (c ∷ s) h = ground arith

decimal-digits :
    (n : ℕ) → n < digit_limit 9 → AllDigits (decimal n) × (read_digits 0 (decimal n) ≡ n)
unfolding decimal
decimal-digits n h = (
  digits-AllDigits 9 n,
  read_digits-value 0 (digits 9 n) (digits-AllDigits 9 n) ∙ value-digits 9 n h,
)

-- A number that is written with `%d` is read back as it was, up to 10 digits.
pub strtol-decimal : (n : ℕ) → n < digit_limit 9 → strtol (decimal n) ≡ n
unfolding strtol
strtol-decimal n h =
    let (d, v) = decimal-digits n h in
    rw (skip_space-digits (decimal n) d)
      (read_signed-digits (decimal n) d ∙ ap long_pos v ∙ ground arith)

-- With a minus sign before it the same text is read as the number of 64 bits that stands for its
-- negative: near 2 ^ 64 as a size, for every number that is not 0.
pub strtol-minus : (n : ℕ) → 0 < n → n < digit_limit 9 → strtol (b'-' ∷ decimal n) ≡ u64_mod - n
unfolding strtol
strtol-minus n pos h = ap long_neg (decimal-digits n h).1 ∙ ground arith

long_pos-lt : (n : ℕ) → long_pos n < u64_mod
long_pos-lt n = ground arith

long_neg-lt : (n : ℕ) → long_neg n < u64_mod
long_neg-lt n = ground arith

read_signed-lt : (s : Bytes) → read_signed s < u64_mod
read_signed-lt [] = omega arith
read_signed-lt (c ∷ s) = ground (
  arith,
  long_neg-lt (read_digits 0 s),
  long_pos-lt (read_digits 0 s),
  long_pos-lt (read_digits 0 (c ∷ s)),
)

pub strtol-lt : (s : Bytes) → strtol s < u64_mod
unfolding strtol
strtol-lt s = read_signed-lt (skip_space s)
