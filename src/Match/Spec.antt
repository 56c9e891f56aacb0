-- ===== src/Match/Spec.antt =====
-- What a key mask means, with no search order in it: README.md's table of constructs read as a
-- small regular language (utils.c, lines 121-131).
use redis_keyspace_amqp.Base.{
  ◌≡◌, refl, ap, Bool, true, false, List, [], ◌∷◌, ◌++◌, Byte, Bytes, ◌==◌, if◌then◌else◌,
}
use redis_keyspace_amqp.Match.{accepts}

-- `c`, and `c*`
pub data Item : Type 0 where
  one : Byte → Item
  star : Byte → Item

-- A mask is read from the left: a byte with a star behind it is repeated, also `*` and `$`; a `$`
-- that is the last byte and carries no star stands for the end.
unfoldable pub items : Bytes → List Item
items [] = []
items (c ∷ []) = if c == b'$' then [] else one c ∷ []
items (c ∷ d ∷ p) =
    let starred = items p in
    let plain = items (d ∷ p) in if d == b'*' then star c ∷ starred else one c ∷ plain

unfoldable pub to_end : Bytes → Bool
to_end [] = false
to_end (c ∷ []) = c == b'$'
to_end (c ∷ d ∷ p) =
    let starred = to_end p in let plain = to_end (d ∷ p) in if d == b'*' then starred else plain

abbrev pub at_start : Bytes → Bool
at_start [] = false
at_start (c ∷ p) = c == b'^'

abbrev pub body : Bytes → Bytes
body [] = []
body (c ∷ p) = if c == b'^' then p else c ∷ p

-- The words of a list of items.
pub data Word : List Item → Bytes → Type 0 where
  empty : Word [] []
  letter :
      {c x : Byte} {is : List Item} {w : Bytes}
      → accepts c x ≡ true
      → Word is w
      → Word (one c ∷ is) (x ∷ w)
  leave : {c : Byte} {is : List Item} {w : Bytes} → Word is w → Word (star c ∷ is) w
  take :
      {c x : Byte} {is : List Item} {w : Bytes}
      → accepts c x ≡ true
      → Word (star c ∷ is) w
      → Word (star c ∷ is) (x ∷ w)

-- A word of the mask's items stands in the text: at its start if the mask begins with `^`, and at
-- its end if the mask ends in `$`.
pub record Occurs (mask text : Bytes) : Type 0 where
  pub before : Bytes
  pub word : Bytes
  pub after : Bytes
  pub splits : text ≡ before ++ (word ++ after)
  pub is_word : Word (items (body mask)) word
  pub starts : at_start mask ≡ true → before ≡ []
  pub ends : to_end (body mask) ≡ true → after ≡ []

-- The same, read along the text: a word at its start, and then `end` or any rest.
pub data Here (end : Bool) : List Item → Bytes → Type 0 where
  stop : {t : Bytes} → (end ≡ true → t ≡ []) → Here end [] t
  letter :
      {c x : Byte} {is : List Item} {t : Bytes}
      → accepts c x ≡ true
      → Here end is t
      → Here end (one c ∷ is) (x ∷ t)
  leave : {c : Byte} {is : List Item} {t : Bytes} → Here end is t → Here end (star c ∷ is) t
  take :
      {c x : Byte} {is : List Item} {t : Bytes}
      → accepts c x ≡ true
      → Here end (star c ∷ is) t
      → Here end (star c ∷ is) (x ∷ t)

module _ {end : Bool} where
  pub Here-Word :
      {is : List Item} {w : Bytes} (r : Bytes)
      → (end ≡ true → r ≡ [])
      → Word is w
      → Here end is (w ++ r)
  Here-Word r e empty = stop e
  Here-Word r e (letter h d) = letter h (Here-Word r e d)
  Here-Word r e (leave d) = leave (Here-Word r e d)
  Here-Word r e (take h d) = take h (Here-Word r e d)

  pub Here-split :
      {is : List Item} {t : Bytes}
      → Here end is t
      → (w : Bytes) × (r : Bytes) × (t ≡ w ++ r) × Word is w × (end ≡ true → r ≡ [])
  Here-split (stop {t} e) = ([], t, refl, empty, e)
  Here-split (letter {x} h d) =
      let (w, r, e, d', k) = Here-split d in (x ∷ w, r, ap (◌∷◌ x) e, letter h d', k)
  Here-split (leave d) = let (w, r, e, d', k) = Here-split d in (w, r, e, leave d', k)
  Here-split (take {x} h d) =
      let (w, r, e, d', k) = Here-split d in (x ∷ w, r, ap (◌∷◌ x) e, take h d', k)
