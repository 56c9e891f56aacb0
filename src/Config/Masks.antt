-- ===== src/Config/Masks.antt =====
-- The list of key masks after `keymask_add`, `keymask_set` and the last arguments of a
-- configuration (library.c, lines 271-282 and 388-408).
use redis_keyspace_amqp.Base.{
  ◌+◌, ◌≤◌, ◌<◌, ◌≡◌, refl, sym, ◌∙◌, ap, ap₂, Bool, List, [], ◌∷◌, ◌++◌, map, Bytes, c_str,
  bytes_eq, if◌then◌else◌, length, length-append, length-map, any, arith, append-nil, append_assoc,
  Bool-cases, inl, inr,
}
use redis_keyspace_amqp.Memory.{done, Allocator}
use redis_keyspace_amqp.StringArray.{StringArray, clean}
use redis_keyspace_amqp.StringArray.Growth.{IsRoomy, add-IsRoomy, clean-IsRoomy}
use redis_keyspace_amqp.System.{Env, System}
use redis_keyspace_amqp.Storage.{redismodule_ok}
use redis_keyspace_amqp.Event.{key_mask_all}
use redis_keyspace_amqp.Config.{mask_step, add_masks, keymask_add_command}

-- The argument reads "ALL".
unfoldable pub is_all : Bytes → Bool
unfolding bytes_eq
is_all arg = bytes_eq (c_str arg) key_mask_all

-- "ALL" anywhere replaces every other mask; else the arguments follow the masks that were there.
abbrev pub masks_after : List Bytes → List Bytes → List Bytes
masks_after before args = if any is_all args then key_mask_all ∷ [] else before ++ map c_str args

-- One argument more in front of the others.
pub masks_after_cons :
    (before cells args : List Bytes) (arg : Bytes)
    → cells ≡ before ++ c_str arg ∷ []
    → masks_after cells args
      ≡ (if any is_all args then key_mask_all ∷ [] else before ++ c_str arg ∷ map c_str args)
masks_after_cons before cells args arg e =
    ap (λ xs. if any is_all args then key_mask_all ∷ [] else xs)
      (ap (λ cs. cs ++ map c_str args) e ∙ append_assoc before (c_str arg ∷ []) (map c_str args))

-- Each argument is one mask more at most.
pub length-masks_after :
    (before args : List Bytes) → length (masks_after before args) ≤ length before + length args
length-masks_after before [] = omega (arith, length-append before [])
length-masks_after before (arg ∷ args) = elim (Bool-cases (any is_all (arg ∷ args))) [
  | inl is ↦ rw is (omega arith)
  | inr isnt ↦
      rw isnt (
        omega (arith, length-append before (map c_str (arg ∷ args)), length-map c_str (arg ∷ args)))
]

c_str-all : c_str key_mask_all ≡ key_mask_all
unfolding c_str
c_str-all = refl

module _ (al : Allocator) where
  -- What one argument does to the array: `stop` exactly at "ALL".
  pub record Stepped (arg : Bytes) (arr : StringArray) : Type 0 where
    pub after : StringArray
    pub steps : mask_step al arg arr ≡ done (is_all arg, after)
    pub cells :
        after.cells ≡ (if is_all arg then key_mask_all ∷ [] else arr.cells ++ c_str arg ∷ [])
    pub roomy : IsRoomy after

  pub mask_step-Stepped :
      (arg : Bytes) (arr : StringArray)
      → IsRoomy arr
      → length arr.cells < 2147483648
      → Stepped arg arr
  unfolding mask_step is_all
  mask_step-Stepped arg arr r small = elim (Bool-cases (bytes_eq (c_str arg) key_mask_all)) [
    | inl is ↦
        let (rc, ec) = clean-IsRoomy arr r in
        let (arr', e, c, r') =
          add-IsRoomy al key_mask_all (clean arr) rc (omega (arith, ap length ec)) in
        record {
          after = arr';
          steps = rw (is, e);
          cells = rw is (c ∙ ap₂ (λ xs x. xs ++ x ∷ []) ec c_str-all);
          roomy = r';
        }
    | inr isnt ↦
        let (arr', e, c, r') = add-IsRoomy al arg arr r small in
        record { after = arr'; steps = rw (isnt, e); cells = rw isnt c; roomy = r' }
  ]

  -- Adding arguments to an array with room ends without a fault. If one of them reads "ALL", the
  -- list is that mask alone; else they follow, in order, the masks that were there.
  add_masks-after :
      (args : List Bytes) (arr : StringArray)
      → IsRoomy arr
      → length arr.cells + length args ≤ 2147483648
      → (arr' : StringArray) × (add_masks al args arr ≡ done arr')
        × (arr'.cells ≡ masks_after arr.cells args)
        × IsRoomy arr'
  unfolding add_masks
  add_masks-after [] arr r small = (arr, refl, sym (append-nil arr.cells), r)
  add_masks-after (arg ∷ args) arr r small =
      let s = mask_step-Stepped arg arr r (omega arith) in
      elim (Bool-cases (is_all arg)) [
        | inl is ↦ (s.after, rw (s.steps, is), rw is ((rw is at s.cells)), s.roomy)
        | inr isnt ↦
            let c : s.after.cells ≡ arr.cells ++ c_str arg ∷ [] = rw isnt at s.cells in
            let (arr', e, c', r') =
              add_masks-after args s.after s.roomy
                (omega (arith, ap length c, length-append arr.cells (c_str arg ∷ []))) in
            (
              arr',
              rw (s.steps, isnt) e,
              rw isnt (c' ∙ masks_after_cons arr.cells s.after.cells args arg c),
              r',
            )
      ]

-- On an array with room, and with up to 2 ^ 31 masks and words, `key_evt_amqp.keymask_add` reports
-- success, and its masks are the words of the whole command
-- line, the command's own name included, behind the masks that were there; or "ALL" alone if that
-- is one of the words. Nothing else changes.
pub keymask_add_command-after :
    {Db : Type 0} (env : Env) (argv : List Bytes) (s : System Db)
    → IsRoomy s.config.key_masks
    → length s.config.key_masks.cells + length argv ≤ 2147483648
    → (arr : StringArray) × (keymask_add_command env argv s
        ≡ done (redismodule_ok, record s { config = record s.config { key_masks = arr } }))
      × (arr.cells ≡ masks_after s.config.key_masks.cells argv)
      × IsRoomy arr
unfolding keymask_add_command
keymask_add_command-after env argv s r small =
    let (arr, e, c, r') = add_masks-after env.allocator argv s.config.key_masks r small in
    (arr, rw e, c, r')
