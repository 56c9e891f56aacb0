-- ===== src/Storage/Push.antt =====
-- `pushEventToStorage`, `setupFallbackStorage` and the length counter (library.c, lines 71-104):
-- what bounds the storage, and what does not.
use redis_keyspace_amqp.Base.{
  ◌%◌, ◌≤◌, ◌≡◌, refl, sym, ◌∙◌, ap, Bool, true, false, List, [], ◌∷◌, ◌++◌, Bytes, if◌then◌else◌,
  length, arith, append-nil, append_assoc, Bool-cases, inl, inr,
}
use redis_keyspace_amqp.Memory.{u64_mod}
use redis_keyspace_amqp.System.{System}
use redis_keyspace_amqp.Storage.{
  ListKey, size_lt_zero-eq_false, is_full, push_event_to_storage, setup_fallback_storage,
}

-- The list without its head.
abbrev pub tail : List Bytes → List Bytes
tail [] = []
tail (x ∷ xs) = xs

-- The last of the messages `m`, `ms`.
abbrev pub last : Bytes → List Bytes → Bytes
last m [] = m
last m (m' ∷ ms) = last m' ms

module _ {Db : Type 0} (key : ListKey Db) where
  pop-tail :
      (d : Db) (xs : List Bytes)
      → key.elements d ≡ xs
      → key.elements (key.list_pop_head d).1 ≡ tail xs
  pop-tail d [] e = (key.pop_nil d e).1
  pop-tail d (x ∷ xs) e = (key.pop_cons d x xs e).1

  -- A push appends the message, after dropping the oldest where the counter has reached a limit
  -- that is not 0. It leaves the counter as it is.
  pub push-append :
      (message : Bytes) (s : System Db)
      → (key.elements (push_event_to_storage key message s).db
          ≡ (if is_full key s then tail (key.elements s.db) else key.elements s.db) ++ message ∷ [])
        × ((push_event_to_storage key message s).storage_len ≡ s.storage_len)
  unfolding push_event_to_storage
  push-append message s = elim (Bool-cases (is_full key s)) [
    | inl full ↦
        rw (size_lt_zero-eq_false, full)
          (key.push_tail_lem message _ ∙ ap (λ xs. xs ++ message ∷ []) (pop-tail s.db _ refl), refl)
    | inr room ↦ rw (size_lt_zero-eq_false, room) (key.push_tail_lem message _, refl)
  ]

  abbrev pub stored : Bytes → System Db → List Bytes
  stored m s = key.elements (push_event_to_storage key m s).db

  pub push-room :
      (m : Bytes) (s : System Db) → is_full key s ≡ false → stored m s ≡ key.elements s.db ++ m ∷ []
  push-room m s room =
      (push-append m s).0
      ∙ ap (λ (b : Bool). (if b then tail (key.elements s.db) else key.elements s.db) ++ m ∷ [])
          room

  push-full :
      (m : Bytes) (s : System Db)
      → is_full key s ≡ true
      → stored m s ≡ tail (key.elements s.db) ++ m ∷ []
  push-full m s full =
      (push-append m s).0
      ∙ ap (λ (b : Bool). (if b then tail (key.elements s.db) else key.elements s.db) ++ m ∷ [])
          full

  unfoldable pub push_all : List Bytes → System Db → System Db
  push_all [] s = s
  push_all (m ∷ ms) s = push_all ms (push_event_to_storage key m s)

  pub push-is_full :
      (message : Bytes) (s : System Db)
      → is_full key (push_event_to_storage key message s) ≡ is_full key s
  unfolding push_event_to_storage
  push-is_full message s = rw size_lt_zero-eq_false

  -- While the counter is below the limit, or the limit is 0, any number of pushes is stored: the
  -- counter does not count them, so the configured size bounds nothing.
  pub push_all-append :
      (ms : List Bytes) (s : System Db)
      → is_full key s ≡ false
      → (key.elements (push_all ms s).db ≡ key.elements s.db ++ ms)
        × ((push_all ms s).storage_len ≡ s.storage_len)
  unfolding push_all
  push_all-append [] s room = (sym (append-nil (key.elements s.db)), refl)
  push_all-append (m ∷ ms) s room =
      let n = (push-append m s).1 in
      let (e', n') = push_all-append ms (push_event_to_storage key m s) (push-is_full m s ∙ room) in
      (
        e'
            ∙ ap (λ xs. xs ++ ms) (push-room m s room)
            ∙ append_assoc (key.elements s.db) (m ∷ []) ms,
        n' ∙ n,
      )

  tail-short : (xs : List Bytes) → length xs ≤ 1 → tail xs ≡ []
  tail-short [] h = refl
  tail-short (x ∷ []) h = refl
  tail-short (x ∷ y ∷ xs) h = absurd (omega arith)

  -- Once the counter stands at or above a limit that is not 0, a storage of at most one message
  -- never grows: after any number of pushes it holds the last message alone, and is still taken
  -- for full.
  pub push_all-full :
      (m : Bytes) (ms : List Bytes) (s : System Db)
      → is_full key s ≡ true
      → length (key.elements s.db) ≤ 1
      → (key.elements (push_all (m ∷ ms) s).db ≡ last m ms ∷ [])
        × (is_full key (push_all (m ∷ ms) s) ≡ true)
  unfolding push_all
  push_all-full m [] s full short = (
    push-full m s full ∙ ap (λ xs. xs ++ m ∷ []) (tail-short (key.elements s.db) short),
    push-is_full m s ∙ full,
  )
  push_all-full m (m' ∷ ms) s full short =
      let alone =
        push-full m s full ∙ ap (λ xs. xs ++ m ∷ []) (tail-short (key.elements s.db) short) in
      push_all-full m' ms (push_event_to_storage key m s) (push-is_full m s ∙ full)
        (rw alone (omega arith))

  -- No value of the size turns the storage off: the set-up always reads the length of the list and
  -- deletes nothing, also for a size that was given as a negative number.
  pub setup-keeps :
      (s : System Db)
      → ((setup_fallback_storage key s).db ≡ s.db)
        × ((setup_fallback_storage key s).storage_len ≡ length (key.elements s.db) % u64_mod)
  unfolding setup_fallback_storage
  setup-keeps s = rw size_lt_zero-eq_false (refl, ap (λ n. n % u64_mod) (key.value_length_lem s.db))
