-- ===== src/StringArray/First.antt =====
-- The first masks of an array (utils.c, lines 28-44), on any allocator: which of them fit the block
-- that line 32 asks for.
use redis_keyspace_amqp.Base.{
  ℕ, ◌+◌, ◌*◌, ◌≤◌, ◌<◌, ◌≡◌, ◌⊎◌, inl, inr, refl, sym, false, ◌%◌, ◌∙◌, ap, List, [], ◌∷◌, ◌++◌,
  map, Bytes, c_str, arith, length, length-append, append-nil, append_assoc, leb, if◌then◌else◌,
  Bool-cases,
}
use redis_keyspace_amqp.Memory.{done, fault, Allocator, u32_mod}
use redis_keyspace_amqp.StringArray.{StringArray, init, grow, store, add}
use redis_keyspace_amqp.StringArray.Growth.{add_all, add_all-append, init-IsRoomy}

module _ (al : Allocator) where
  -- The array is in its first block still.
  record IsFirst (arr : StringArray) : Type 0 where
    counted : arr.size ≡ length arr.cells
    first : arr.capacity ≡ 8
    block : arr.block ≡ al.usable 8
    room : 8 * length arr.cells ≤ al.usable 8

  -- All values are stored, or one is written past the block.
  abbrev pub Filled : ℕ → List Bytes → StringArray → List Bytes → Type 0
  Filled need vs arr cells =
      ((al.usable 8 < need) × (add_all al vs arr ≡ fault))
      ⊎ ((need ≤ al.usable 8)
          × (arr' : StringArray) × (add_all al vs arr ≡ done arr')
          × (arr'.cells ≡ cells))

  grow-IsFirst : (arr : StringArray) → IsFirst arr → al.usable 8 < 64 → grow al arr ≡ arr
  unfolding grow
  grow-IsFirst arr f small =
      let room : leb arr.capacity arr.size ≡ false = ground arith in rw room refl

  add-IsFirst :
      (v : Bytes) (arr : StringArray)
      → IsFirst arr
      → al.usable 8 < 64
      → 8 * (length arr.cells + 1) ≤ al.usable 8
      → (arr' : StringArray) × (add al v arr ≡ done arr')
        × (arr'.cells ≡ arr.cells ++ c_str v ∷ [])
        × IsFirst arr'
  unfolding add store
  add-IsFirst v arr f small fit =
      let arr' = record arr {
        size = (arr.size + 1) % u32_mod;
        cells = arr.cells ++ c_str v ∷ [];
      } in
      let more = length-append arr.cells (c_str v ∷ []) in
      rw (grow-IsFirst arr f small) (
        arr',
        ground (arith, f.counted, f.block),
        refl,
        record {
          counted = omega (arith, f.counted, f.room, more);
          first = f.first;
          block = f.block;
          room = omega (arith, more);
        },
      )

  add-faults :
      (v : Bytes) (arr : StringArray)
      → IsFirst arr
      → al.usable 8 < 64
      → al.usable 8 < 8 * (length arr.cells + 1)
      → add al v arr ≡ fault
  unfolding add store
  add-faults v arr f small over = rw (grow-IsFirst arr f small) (ground (arith, f.counted, f.block))

  fill-IsFirst :
      (vs : List Bytes) (arr : StringArray)
      → IsFirst arr
      → al.usable 8 < 64
      → Filled (8 * (length arr.cells + length vs)) vs arr (arr.cells ++ map c_str vs)
  unfolding add_all
  fill-IsFirst [] arr f small = inr (omega (arith, f.room), arr, refl, sym (append-nil arr.cells))
  fill-IsFirst (v ∷ vs) arr f small =
      elim (Bool-cases (leb (8 * (length arr.cells + 1)) (al.usable 8))) [
        | inl fit ↦
            let (arr1, e, c, f1) = add-IsFirst v arr f small (ground arith) in
            let longer = ap (λ xs. length xs) c ∙ length-append arr.cells (c_str v ∷ []) in
            let regroup = append_assoc arr.cells (c_str v ∷ []) (map c_str vs) in
            elim (fill-IsFirst vs arr1 f1 small) [
              | inl (over, faults) ↦ inl (omega (arith, longer), rw e faults)
              | inr (fits, arr2, e2, c2) ↦ inr (
                omega (arith, longer),
                arr2,
                rw e e2,
                c2 ∙ ap (λ cs. cs ++ map c_str vs) c ∙ regroup,
              )
            ]
        | inr over ↦ inl (ground arith, rw (add-faults v arr f small (ground arith)) refl)
      ]

  init-IsFirst : IsFirst (init al 0 8)
  unfolding init
  init-IsFirst = record { counted = refl; first = refl; block = refl; room = omega arith }

  abbrev pub first_need : List Bytes → ℕ
  first_need vs = if leb (length vs) 8 then 8 * length vs else 64

  -- Filling a new array with any number of values, 2 ^ 31 at most, on any allocator: if the block that
  -- line 32 asks for with 8 bytes holds a pointer for each of the first eight values, all are stored in
  -- order, each cut at its first NUL; and if it does not, one is written past it.
  pub add_all-first :
      (vs : List Bytes)
      → length vs ≤ 2147483648
      → Filled (first_need vs) vs (init al 0 8) (map c_str vs)
  unfolding init
  add_all-first vs few = elim (Bool-cases (leb 64 (al.usable 8))) [
    | inl wide ↦
        let (arr', e, c, r) =
          add_all-append al vs (init al 0 8) (init-IsRoomy al (ground arith)) (omega arith) in
        inr (ground arith, arr', e, c)
    | inr narrow ↦ elim (fill-IsFirst vs (init al 0 8) init-IsFirst (ground arith)) [
      | inl (over, faults) ↦ inl (ground arith, faults)
      | inr (fits, arr', e, c) ↦ inr (ground arith, arr', e, c)
    ]
  ]
