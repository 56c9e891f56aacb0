-- ===== src/Config/Size.antt =====
-- The size of the fallback storage as `fallback_storage_size_set` takes it (library.c, lines 375-386
-- and 96-104).
use redis_keyspace_amqp.Base.{
  ℕ, zero, suc, ◌+◌, ◌-◌, ◌/◌, ◌%◌, ◌<◌, ◌≡◌, refl, ◌∙◌, ap, not, [], ◌∷◌, Bytes, c_str, NoNul,
  c_str-eq_self, all-append, length, arith, ◌==◌,
}
use redis_keyspace_amqp.Memory.{u64_mod}
use redis_keyspace_amqp.System.{Config, System}
use redis_keyspace_amqp.Storage.{
  ListKey, redismodule_ok, setup_fallback_storage, size_lt_zero-eq_false,
}
use redis_keyspace_amqp.Storage.Push.{setup-keeps}
use redis_keyspace_amqp.Event.{digits, decimal}
use redis_keyspace_amqp.Event.Message.{digit_limit}
use redis_keyspace_amqp.Strtol.{strtol}
use redis_keyspace_amqp.Strtol.Bounds.{strtol-decimal, strtol-minus}
use redis_keyspace_amqp.Config.{setup_fallback_storage_size_command}

digits-NoNul : (fuel n : ℕ) → NoNul (digits fuel n)
unfolding digits
digits-NoNul zero n = ground arith
digits-NoNul (suc fuel) n = ground (
  arith,
  all-append (λ b. not (b == 0)) (digits fuel (n / 10)) ((48 + n % 10) ∷ [])
      (digits-NoNul fuel (n / 10)),
)

c_str-decimal : (n : ℕ) → c_str (decimal n) ≡ decimal n
unfolding decimal
c_str-decimal n = c_str-eq_self (digits 9 n) (digits-NoNul 9 n)

c_str-minus : (n : ℕ) → c_str (b'-' ∷ decimal n) ≡ b'-' ∷ decimal n
unfolding decimal
c_str-minus n = c_str-eq_self (b'-' ∷ digits 9 n) (ground (arith, digits-NoNul 9 n))

pub setup-config :
    {Db : Type 0} (key : ListKey Db) (s : System Db)
    → (setup_fallback_storage key s).config ≡ s.config
unfolding setup_fallback_storage
setup-config key s = rw size_lt_zero-eq_false refl

module _ {Db : Type 0} (key : ListKey Db) (name : Bytes) (n : ℕ) (s : System Db) where
  abbrev pub sized : Bytes → ℕ × System Db
  sized arg = setup_fallback_storage_size_command key (name ∷ arg ∷ []) s

  -- The new size, an OK, the stored events as they were, and the counter read again.
  abbrev pub Resized : ℕ → ℕ × System Db → Type 0
  Resized size r =
      (r.0 ≡ redismodule_ok)
      × (r.1.config.max_size ≡ size)
      × (r.1.db ≡ s.db)
      × (r.1.storage_len ≡ length (key.elements s.db) % u64_mod)

  resized : (size : ℕ) (arg : Bytes) → strtol (c_str arg) ≡ size → Resized size (sized arg)
  unfolding setup_fallback_storage_size_command
  resized size arg e =
      let t = record s { config = record s.config { max_size = strtol (c_str arg) } } in
      let (d, n) = setup-keeps key t in
      (refl, ap (λ (c : Config). c.max_size) (setup-config key t) ∙ e, d, n)

  -- `fallback_storage_size_set` with a number of up to ten digits sets that size. It deletes no
  -- stored event, and sets the counter to the number of stored events.
  pub size_command-decimal : n < digit_limit 9 → Resized n (sized (decimal n))
  size_command-decimal h = resized n (decimal n) (ap strtol (c_str-decimal n) ∙ strtol-decimal n h)

  -- With a minus sign before a number from 1 to 10 ^ 10 - 1 the size becomes 2 ^ 64 less the number
  -- and no stored event is deleted.
  pub size_command-minus :
      0 < n → n < digit_limit 9 → Resized (u64_mod - n) (sized (b'-' ∷ decimal n))
  size_command-minus pos h =
      resized (u64_mod - n) (b'-' ∷ decimal n) (ap strtol (c_str-minus n) ∙ strtol-minus n pos h)
