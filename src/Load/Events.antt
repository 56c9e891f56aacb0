-- ===== src/Load/Events.antt =====
-- The events mask of MODULE LOAD (library.c, lines 545-587): which masks are taken.
use redis_keyspace_amqp.Base.{
  ℕ, ◌≡◌, refl, Bool, true, false, List, [], ◌∷◌, Option, none, some, Byte, Bytes, codes, c_str,
  ◌==◌, any, all, arith, bit_or, Option-cases, inl, inr,
}
use redis_keyspace_amqp.Load.{flag_of, events_loop, subscription_mode}

abbrev pub is_some : Option ℕ → Bool
is_some none = false
is_some (some n) = true

-- README.md's list of flags
unfoldable pub is_flag : Byte → Bool
is_flag c = any (λ f. c == f) (codes "g$lshzxeA")

flag_of-is_flag : (c : Byte) → is_some (flag_of c) ≡ is_flag c
unfolding flag_of is_flag
flag_of-is_flag c = ground arith

events_loop-all : (mode : ℕ) (mask : Bytes) → is_some (events_loop mode mask) ≡ all is_flag mask
unfolding events_loop
events_loop-all mode [] = refl
events_loop-all mode (c ∷ mask) = elim (Option-cases (flag_of c)) [
  | inl bad ↦ ground (arith, flag_of-is_flag c)
  | inr (flag, good) ↦ ground (arith, flag_of-is_flag c, events_loop-all (bit_or mode flag) mask)
]

-- The events mask is taken exactly if each of its bytes, up to a NUL, is one of the flags that
-- README.md lists.
pub subscription_mode-is_flag :
    (mask : Bytes) (args : List Bytes)
    → is_some (subscription_mode (mask ∷ args)) ≡ all is_flag (c_str mask)
unfolding subscription_mode
subscription_mode-is_flag mask args = events_loop-all 0 (c_str mask)
