-- ===== src/Event/Message.antt =====
-- The message of an event (library.c, lines 115-116): its buffer, and what a consumer reads.
use redis_keyspace_amqp.Base.{
  ℕ, zero, suc, ◌+◌, ◌-◌, ◌*◌, ◌/◌, ◌%◌, ◌≤◌, ◌<◌, ◌≡◌, refl, ◌∙◌, true, not, [], ◌∷◌, ◌++◌, Byte,
  Bytes, ◌==◌, ltb, if◌then◌else◌, length, all, all-append, arith, length-append, Bool-cases, inl,
  inr,
}
use redis_keyspace_amqp.Event.{digits, decimal, message_string}

length-digits-le : (fuel n : ℕ) → length (digits fuel n) ≤ fuel + 1
unfolding digits
length-digits-le zero n = omega arith
length-digits-le (suc fuel) n = ground (
  arith,
  length-digits-le fuel (n / 10),
  length-append (digits fuel (n / 10)) ((48 + n % 10) ∷ []),
)

-- The size of `messageString`, line 115
abbrev pub message_size : Bytes → Bytes → ℕ
message_size event keyname = 21 + 1 + length event + 1 + length keyname

-- `sprintf` with its final NUL stays inside `messageString`, for every database number, which has ten
-- digits at most, event and key name.
pub message-fits :
    (db : ℕ) (event keyname : Bytes)
    → length (message_string db event keyname) + 1 ≤ message_size event keyname
unfolding message_string decimal
message-fits db event keyname = omega (
  arith,
  length-digits-le 9 db,
  length-append (digits 9 db) (10 ∷ (event ++ 10 ∷ keyname)),
  length-append event (10 ∷ keyname),
)

-- A consumer's reading of a message: the first line, and the rest.
unfoldable pub first_line : Bytes → Bytes × Bytes
first_line [] = ([], [])
first_line (b ∷ s) =
    let (line, rest) = first_line s in if b == 10 then ([], s) else (b ∷ line, rest)

unfoldable pub value : ℕ → Bytes → ℕ
value acc [] = acc
value acc (b ∷ s) = value (acc * 10 + (b - 48)) s

abbrev pub IsLine : Bytes → Type 0
IsLine s = all (λ b. not (b == 10)) s ≡ true

first_line-append :
    (line rest : Bytes) → IsLine line → first_line (line ++ 10 ∷ rest) ≡ (line, rest)
unfolding first_line
first_line-append [] rest h = refl
first_line-append (b ∷ line) rest h = ground (arith, first_line-append line rest)

digits-IsLine : (fuel n : ℕ) → IsLine (digits fuel n)
unfolding digits
digits-IsLine zero n = ground arith
digits-IsLine (suc fuel) n = ground (
  arith,
  all-append (λ b. not (b == 10)) (digits fuel (n / 10)) ((48 + n % 10) ∷ [])
      (digits-IsLine fuel (n / 10)),
)

value-append :
    (acc : ℕ) (s : Bytes) (b : Byte) → value acc (s ++ b ∷ []) ≡ value acc s * 10 + (b - 48)
unfolding value
value-append acc [] b = refl
value-append acc (c ∷ s) b = value-append (acc * 10 + (c - 48)) s b

-- 10 ^ (fuel + 1)
abbrev pub digit_limit : ℕ → ℕ
digit_limit zero = 10
digit_limit (suc fuel) = 10 * digit_limit fuel

pub value-digits : (fuel n : ℕ) → n < digit_limit fuel → value 0 (digits fuel n) ≡ n
unfolding digits value
value-digits zero n h = omega arith
value-digits (suc fuel) n h = elim (Bool-cases (ltb n 10)) [
  | inl small ↦ rw small (omega arith)
  | inr large ↦ rw large (
      value-append 0 (digits fuel (n / 10)) (48 + n % 10)
      ∙ omega (arith, value-digits fuel (n / 10) (omega arith)))
]

-- What a consumer reads from the three lines of a message is the database number, the event and
-- the key name, if the event has no newline in it and the number fits an int.
pub message-reads :
    (db : ℕ) (event keyname : Bytes)
    → db < 2147483648
    → IsLine event
    → (value 0 (first_line (message_string db event keyname)).0 ≡ db)
      × (first_line (first_line (message_string db event keyname)).1 ≡ (event, keyname))
unfolding message_string decimal
message-reads db event keyname small line =
    let e = first_line-append (digits 9 db) (event ++ 10 ∷ keyname) (digits-IsLine 9 db) in
    rw e (value-digits 9 db (omega arith), first_line-append event keyname line)
