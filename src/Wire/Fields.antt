-- ===== src/Wire/Fields.antt =====
-- Decoding (utils.c, lines 89-117) of any text, beside a definition of its fields that has no
-- buffer, no index and no block.
use redis_keyspace_amqp.Base.{
  ℕ, ◌+◌, ◌*◌, ◌≤◌, ◌<◌, ◌≡◌, refl, sym, ◌∙◌, ap, ap₂, Bool, false, ◌||◌, List, [], ◌∷◌, ◌++◌, Byte,
  Bytes, c_str, ◌==◌, if◌then◌else◌, length, leb, arith, inl, inr, Bool-cases, length-append,
  append_assoc, append-nil,
}
use redis_keyspace_amqp.Memory.{Outcome, done, fault, ◌>>◌, Allocator, ptr_size, check}
use redis_keyspace_amqp.Wire.{newline, store_arg, split_loop, serialized_string_to_redis_args}

abbrev pub cons_first : Byte → List Bytes → List Bytes
cons_first c [] = (c ∷ []) ∷ []
cons_first c (f ∷ fs) = (c ∷ f) ∷ fs

-- A newline ends a field, and what stands behind the last newline is a field unless it is empty.
abbrev pub fields : Bytes → List Bytes
fields [] = []
fields (c ∷ text) = if c == newline then [] ∷ fields text else cons_first c (fields text)

abbrev pub has_newline : Bytes → Bool
has_newline [] = false
has_newline (c ∷ text) = c == newline || has_newline text

abbrev pub onto : Bytes → List Bytes → List Bytes
onto [] fs = fs
onto (b ∷ buff) fs = cons_first b (onto buff fs)

onto-snoc :
    (buff : Bytes) (c : Byte) (fs : List Bytes)
    → onto (buff ++ c ∷ []) fs ≡ onto buff (cons_first c fs)
onto-snoc [] c fs = refl
onto-snoc (b ∷ buff) c fs = ap (cons_first b) (onto-snoc buff c fs)

pub onto-closed : (buff : Bytes) (fs : List Bytes) → onto buff ([] ∷ fs) ≡ buff ∷ fs
onto-closed [] fs = refl
onto-closed (b ∷ buff) fs = ap (cons_first b) (onto-closed buff fs)

pub onto-open : (b : Byte) (buff : Bytes) → onto (b ∷ buff) [] ≡ (b ∷ buff) ∷ []
onto-open b [] = refl
onto-open b (c ∷ buff) = ap (cons_first b) (onto-open c buff)

length-cons_first-le : (c : Byte) (fs : List Bytes) → length fs ≤ 1 → length (cons_first c fs) ≤ 1
length-cons_first-le c [] h = omega arith
length-cons_first-le c (f ∷ fs) h = omega arith

no_newline-fields : (text : Bytes) → has_newline text ≡ false → length (fields text) ≤ 1
no_newline-fields [] h = omega arith
no_newline-fields (c ∷ text) h =
    let m : ((c == newline) ≡ false) × (has_newline text ≡ false) = ground arith in
    rw m.0 (length-cons_first-le c (fields text) (no_newline-fields text m.1))

abbrev within : ℕ → List Bytes → Outcome (List Bytes)
within block args = do check (ptr_size * length args) block; done args

module _ (al : Allocator) where
  -- the bytes behind `out` when the last field is stored: line 99 asks again at each newline
  abbrev pub last_block : ℕ → Bytes → ℕ
  last_block block text = if has_newline text then al.usable ptr_size else block

  within-fits :
      (block : ℕ) (args : List Bytes)
      → ptr_size * length args ≤ block
      → within block args ≡ done args
  within-fits block args h = ground arith

  within-more :
      (block : ℕ) (out : List Bytes) (buff : Bytes) (fs : List Bytes)
      → block < ptr_size * (length out + 1)
      → within block (out ++ buff ∷ fs) ≡ fault
  within-more block out buff fs h = ground (arith, length-append out (buff ∷ fs))

  within-one :
      (block : ℕ) (out : List Bytes) (buff : Bytes)
      → store_arg block out buff ≡ within block (out ++ buff ∷ [])
  within-one block out buff = ground (arith, length-append out (buff ∷ []))

  store_arg-fits :
      (block : ℕ) (out : List Bytes) (buff : Bytes)
      → ptr_size * (length out + 1) ≤ block
      → store_arg block out buff ≡ done (out ++ buff ∷ [])
  store_arg-fits block out buff h = ground arith

  store_arg-faults :
      (block : ℕ) (out : List Bytes) (buff : Bytes)
      → block < ptr_size * (length out + 1)
      → store_arg block out buff ≡ fault
  store_arg-faults block out buff h = ground arith

  last_block-same : (text : Bytes) → last_block (al.usable ptr_size) text ≡ al.usable ptr_size
  last_block-same text = ground arith

  split_loop-fields :
      (text : Bytes) (block : ℕ) (out : List Bytes) (buff : Bytes)
      → ptr_size * length out ≤ block
      → ptr_size * length out ≤ al.usable ptr_size
      → split_loop al block out buff text
        ≡ within (last_block block text) (out ++ onto buff (fields text))
  unfolding split_loop
  split_loop-fields [] block out [] now again =
      sym (ap (within block) (append-nil out) ∙ within-fits block out now)
  split_loop-fields [] block out (b ∷ buff) now again =
      within-one block out (b ∷ buff) ∙ ap (λ fs. within block (out ++ fs)) (sym (onto-open b buff))
  split_loop-fields (c ∷ text) block out buff now again = elim (Bool-cases (c == newline)) [
    | inl ends ↦ rw ends (
        rw (onto-closed buff (fields text))
          (elim (Bool-cases (leb (ptr_size * (length out + 1)) (al.usable ptr_size))) [
            | inl fit ↦ rw (store_arg-fits (al.usable ptr_size) out buff (ground arith)) (
                split_loop-fields text (al.usable ptr_size) (out ++ buff ∷ []) []
                  (ground (arith, length-append out (buff ∷ [])))
                  (ground (arith, length-append out (buff ∷ [])))
                ∙ ap₂ within (last_block-same text) (append_assoc out (buff ∷ []) (fields text)))
            | inr over ↦
                rw (store_arg-faults (al.usable ptr_size) out buff (ground arith))
                  (sym (within-more (al.usable ptr_size) out buff (fields text) (ground arith)))
          ]))
    | inr on ↦ rw on (
        split_loop-fields text block out (buff ++ c ∷ []) now again
        ∙ ap (λ fs. within (last_block block text) (out ++ fs)) (onto-snoc buff c (fields text)))
  ]

  -- Decoding any text, on any allocator, gives exactly the fields of what stands before its first
  -- NUL when a pointer for each of them fits the last block asked for (8 bytes asked for at each
  -- newline, 0 bytes when there is none), and writes past that block otherwise.
  pub decode-fields :
      (text : Bytes)
      → serialized_string_to_redis_args al text ≡ (
          check
            (ptr_size * length (fields (c_str text)))
            (if has_newline (c_str text) then al.usable ptr_size else al.usable 0)
          >> done (fields (c_str text)))
  unfolding serialized_string_to_redis_args
  decode-fields text =
      split_loop-fields (c_str text) (al.usable 0) [] [] (omega arith) (omega arith)

  pub decode-fits :
      (text : Bytes)
      → ptr_size * length (fields (c_str text)) ≤ al.usable ptr_size
      → ptr_size ≤ al.usable 0
      → serialized_string_to_redis_args al text ≡ done (fields (c_str text))
  decode-fits text fit first = decode-fields text ∙ (elim (Bool-cases (has_newline (c_str text))) [
    | inl lines ↦ rw lines (within-fits (al.usable ptr_size) (fields (c_str text)) fit)
    | inr line ↦ rw line (
        within-fits (al.usable 0) (fields (c_str text))
          (omega (arith, no_newline-fields (c_str text) line)))
  ])
