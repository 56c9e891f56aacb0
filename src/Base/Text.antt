-- ===== src/Base/Text.antt =====
-- Bytes and C strings: text constants, `strcmp`, and the cut at the first NUL byte.
use Prim.Native.Nat.{ℕ, ◌≤◌}
use Prim.Native.Char.{code}
use Prim.Native.String.{String}
use mathlib.Core.Path.{◌≡◌, refl, ap₂}
use mathlib.Core.Bool.{Bool, true, false, not, ◌&&◌}
use mathlib.Core.List.{List, [], ◌∷◌}
use native.Mathlib.Omega.{arith}
use redis_keyspace_amqp.Base.Tests.{◌==◌, ==_iff, and-eq_true, if◌then◌else◌}
use redis_keyspace_amqp.Base.Lists.{length, all}

abbrev pub Byte : Type 0
Byte = ℕ

abbrev pub Bytes : Type 0
Bytes = List Byte

-- The bytes of an ASCII text constant.
abbrev pub codes : String → Bytes
codes String.[] = []
codes (String.◌∷◌ c s) = code c ∷ codes s

-- `strcmp (a, b) == 0`, on strings that hold no NUL
unfoldable pub bytes_eq : Bytes → Bytes → Bool
bytes_eq [] [] = true
bytes_eq (a ∷ as') (b ∷ bs) = a == b && bytes_eq as' bs
bytes_eq _ _ = false

pub bytes_eq_refl : (a : Bytes) → bytes_eq a a ≡ true
unfolding bytes_eq
bytes_eq_refl [] = refl
bytes_eq_refl (a ∷ r) = ground (arith, bytes_eq_refl r)

pub bytes_eq→eq : (a b : Bytes) → bytes_eq a b ≡ true → a ≡ b
unfolding bytes_eq
bytes_eq→eq [] [] h = refl
bytes_eq→eq (a ∷ r) (b ∷ s) h =
    let (p, q) = and-eq_true (a == b) (bytes_eq r s) h in
    ap₂ ◌∷◌ ((==_iff a b).0 p) (bytes_eq→eq r s q)
bytes_eq→eq [] (b ∷ s) h = ground arith
bytes_eq→eq (a ∷ r) [] h = ground arith

-- What a `const char*` into the buffer reads: the bytes before the first NUL.
unfoldable pub c_str : Bytes → Bytes
c_str [] = []
c_str (b ∷ s) = if b == 0 then [] else b ∷ c_str s

abbrev pub NoNul : Bytes → Type 0
NoNul s = all (λ b. not (b == 0)) s ≡ true

pub c_str-NoNul : (s : Bytes) → NoNul (c_str s)
unfolding c_str
c_str-NoNul [] = refl
c_str-NoNul (b ∷ s) = ground (arith, c_str-NoNul s)

pub c_str-eq_self : (s : Bytes) → NoNul s → c_str s ≡ s
unfolding c_str
c_str-eq_self [] h = refl
c_str-eq_self (b ∷ s) h = ground (arith, c_str-eq_self s)

pub length-c_str-le : (s : Bytes) → length (c_str s) ≤ length s
unfolding c_str
length-c_str-le [] = omega arith
length-c_str-le (b ∷ s) = ground (arith, length-c_str-le s)
