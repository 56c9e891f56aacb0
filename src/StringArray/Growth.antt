-- ===== src/StringArray/Growth.antt =====
-- When the array of key masks (utils.c, lines 28-51) is a list, and when it is written past its
-- block.
use redis_keyspace_amqp.Base.{
  ◌+◌, ◌*◌, ◌%◌, ◌≤◌, ◌<◌, ◌≡◌, refl, sym, ◌∙◌, ap, List, [], ◌∷◌, ◌++◌, map, Bytes, c_str, arith,
  length, length-append, append-nil, append_assoc,
}
use redis_keyspace_amqp.Memory.{Outcome, done, fault, ◌>>=◌, Allocator, ptr_size, u32_mod, u64_mod}
use redis_keyspace_amqp.StringArray.{StringArray, init, grow, store, add, clean}

-- `stringArrayAdd` for each value in turn, as the loops of library.c call it.
unfoldable pub add_all : Allocator → List Bytes → StringArray → Outcome StringArray
unfolding add
add_all al [] arr = done arr
add_all al (v ∷ vs) arr = do arr' ← add al v arr; add_all al vs arr'

-- The array stands for `cells`, and its block holds a pointer for each place of its capacity.
pub record IsRoomy (arr : StringArray) : Type 0 where
  pub counted : arr.size ≡ length arr.cells
  pub within : arr.size ≤ arr.capacity
  pub growable : 0 < arr.capacity
  pub word : arr.capacity < u32_mod
  pub room : ptr_size * arr.capacity ≤ arr.block

module _ (al : Allocator) where
  grow-IsRoomy :
      (arr : StringArray)
      → IsRoomy arr
      → arr.size < 2147483648
      → IsRoomy (grow al arr) × ((grow al arr).size < (grow al arr).capacity)
  unfolding grow
  grow-IsRoomy arr r small = ground (arith, al.usable-le ((arr.capacity * ptr_size * 2) % u64_mod))

  grow_keeps :
      (arr : StringArray) → ((grow al arr).cells ≡ arr.cells) × ((grow al arr).size ≡ arr.size)
  unfolding grow
  grow_keeps arr = ground arith

  store-IsRoomy :
      (v : Bytes) (arr : StringArray)
      → IsRoomy arr
      → arr.size < arr.capacity
      → (arr' : StringArray) × (store v arr ≡ done arr')
        × (arr'.cells ≡ arr.cells ++ c_str v ∷ [])
        × IsRoomy arr'
  unfolding store
  store-IsRoomy v arr r free = (
    record arr { size = (arr.size + 1) % u32_mod; cells = arr.cells ++ c_str v ∷ [] },
    ground arith,
    refl,
    record {
      counted = omega (arith, length-append arr.cells (c_str v ∷ []));
      within = omega arith;
      growable = r.growable;
      word = r.word;
      room = r.room;
    },
  )

  pub add-IsRoomy :
      (v : Bytes) (arr : StringArray)
      → IsRoomy arr
      → length arr.cells < 2147483648
      → (arr' : StringArray) × (add al v arr ≡ done arr')
        × (arr'.cells ≡ arr.cells ++ c_str v ∷ [])
        × IsRoomy arr'
  unfolding add
  add-IsRoomy v arr r small =
      let (r', free) = grow-IsRoomy arr r (omega arith) in
      let (arr', e, c, r'') = store-IsRoomy v (grow al arr) r' free in
      (arr', e, c ∙ ap (λ cs. cs ++ c_str v ∷ []) (grow_keeps arr).0, r'')

  -- On an array with room, adding any number of values ends without a fault, appends them in
  -- order, each cut at its first NUL, and keeps room, as long as the total stays below 2 ^ 31.
  pub add_all-append :
      (vs : List Bytes) (arr : StringArray)
      → IsRoomy arr
      → length arr.cells + length vs ≤ 2147483648
      → (arr' : StringArray) × (add_all al vs arr ≡ done arr')
        × (arr'.cells ≡ arr.cells ++ map c_str vs)
        × IsRoomy arr'
  unfolding add_all
  add_all-append [] arr r small = (arr, refl, sym (append-nil arr.cells), r)
  add_all-append (v ∷ vs) arr r small =
      let (arr1, e, c, r1) = add-IsRoomy v arr r (omega arith) in
      let (arr2, e2, c2, r2) =
        add_all-append vs arr1 r1
          (omega (arith, ap length c, length-append arr.cells (c_str v ∷ []))) in
      let regroup = append_assoc arr.cells (c_str v ∷ []) (map c_str vs) in
      (arr2, rw e e2, c2 ∙ ap (λ cs. cs ++ map c_str vs) c ∙ regroup, r2)

  -- The first block has `usable 8` bytes, since line 32 asks for 8 bytes for 8 pointers. With an
  -- allocator that gives fewer than 16, the second mask is written past the block, whatever the
  -- two masks are.
  pub second_add_faults :
      (a b : Bytes) → al.usable 8 < 16 → (add al a (init al 0 8) >>= λ arr. add al b arr) ≡ fault
  unfolding add init grow store
  second_add_faults a b small = ground arith

  -- With at least 64 bytes behind that request the array starts with room.
  pub init-IsRoomy : 64 ≤ al.usable 8 → IsRoomy (init al 0 8)
  unfolding init
  init-IsRoomy h = record {
    counted = refl;
    within = omega arith;
    growable = omega arith;
    word = omega arith;
    room = h;
  }

-- `stringArrayClean` keeps the block and empties the list.
pub clean-IsRoomy :
    (arr : StringArray) → IsRoomy arr → IsRoomy (clean arr) × ((clean arr).cells ≡ [])
unfolding clean
clean-IsRoomy arr r = (
  record {
    counted = refl;
    within = omega arith;
    growable = r.growable;
    word = r.word;
    room = r.room;
  },
  refl,
)
