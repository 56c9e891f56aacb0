-- ===== src/Match/Plain.antt =====
-- Masks without special bytes, and the same between `^` and `$` (utils.c, lines 155-165).
use redis_keyspace_amqp.Base.{
  ◌≡◌, refl, sym, ap, ap₂, ◌∙◌, Bool, true, false, not, ◌&&◌, List, [], ◌∷◌, ◌++◌, map, Byte, Bytes,
  ◌==◌, arith, ◌↔◌, all, append-nil,
}
use redis_keyspace_amqp.Match.{accepts, match}
use redis_keyspace_amqp.Match.Spec.{Item, one, items, to_end, body, at_start, Word}
use redis_keyspace_amqp.Match.Decides.{match_iff}

abbrev pub plain_byte : Byte → Bool
plain_byte c = not (c == b'.') && (not (c == b'^') && (not (c == b'$') && not (c == b'*')))

abbrev pub IsPlain : Bytes → Type 0
IsPlain m = all plain_byte m ≡ true

items-plain : (m : Bytes) → IsPlain m → (items m ≡ map one m) × (to_end m ≡ false)
unfolding items to_end
items-plain [] h = (refl, refl)
items-plain (c ∷ []) h = ground arith
items-plain (c ∷ d ∷ m) h = ground (arith, items-plain (d ∷ m))

items-dollar :
    (m : Bytes)
    → IsPlain m
    → (items (m ++ b'$' ∷ []) ≡ map one m) × (to_end (m ++ b'$' ∷ []) ≡ true)
unfolding items to_end
items-dollar [] h = (refl, refl)
items-dollar (c ∷ []) h = ground arith
items-dollar (c ∷ d ∷ m) h = ground (arith, items-dollar (d ∷ m))

at_start-plain : (m : Bytes) → IsPlain m → (at_start m ≡ false) × (body m ≡ m)
at_start-plain [] h = (refl, refl)
at_start-plain (c ∷ m) h = ground arith

letter_inv :
    {c : Byte} {is : List Item} {w : Bytes}
    → Word (one c ∷ is) w
    → (x : Byte) × (v : Bytes) × (w ≡ x ∷ v) × (accepts c x ≡ true) × Word is v
letter_inv (Word.letter {x} {w} h d) = (x, w, refl, h, d)

empty_inv : {w : Bytes} → Word [] w → w ≡ []
empty_inv Word.empty = refl

-- A plain mask is the one word that its items have.
Word-plain : (m w : Bytes) → IsPlain m → Word (map one m) w → w ≡ m
Word-plain [] w h d = empty_inv d
Word-plain (c ∷ m) w h d =
    let (x, v, e, a, d') = letter_inv d in
    let same : x ≡ c = ground arith in
    let rest : IsPlain m = ground arith in e ∙ ap₂ ◌∷◌ same (Word-plain m v rest d')

Word-plain_self : (m : Bytes) → Word (map one m) m
Word-plain_self [] = Word.empty
Word-plain_self (c ∷ m) = Word.letter (ground arith) (Word-plain_self m)

module _ (m text : Bytes) (plain : IsPlain m) where
  -- A mask with none of the bytes `. ^ $ *` matches exactly the texts that contain it.
  pub match-plain :
      (match m text ≡ true) ↔ ((pre : Bytes) × (post : Bytes) × (text ≡ pre ++ (m ++ post)))
  match-plain =
      let (i, e) = items-plain m plain in
      let (a, b) = at_start-plain m plain in
      (
        λ h.
            let o = (match_iff m text).0 h in
            let w = Word-plain m o.word plain (rw (b, i) at o.is_word) in
            (o.before, o.after, rw w at o.splits),
        λ (pre, post, s). (match_iff m text).1 (record {
          before = pre;
          word = m;
          after = post;
          splits = s;
          is_word = rw (b, i) (Word-plain_self m);
          starts = λ y. cc;
          ends = λ y. cc (ap to_end b);
        }),
      )

  -- The same mask between `^` and `$` matches exactly the text that is equal to it.
  pub match-exact : (match (b'^' ∷ (m ++ b'$' ∷ [])) text ≡ true) ↔ (text ≡ m)
  match-exact =
      let (i, e) = items-dollar m plain in
      (
        λ h.
            let o = (match_iff _ text).0 h in
            let w = Word-plain m o.word plain (rw i at o.is_word) in
            o.splits ∙ rw (o.starts refl, o.ends e, append-nil) w,
        λ s. (match_iff _ text).1 (record {
          before = [];
          word = m;
          after = [];
          splits = s ∙ sym (append-nil m);
          is_word = rw i (Word-plain_self m);
          starts = λ y. refl;
          ends = λ y. refl;
        }),
      )
