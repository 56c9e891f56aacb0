-- ===== src/Match/Decides.antt =====
-- `matchhere` and `match` (utils.c, lines 134-165) decide what a mask means.
use redis_keyspace_amqp.Base.{
  ◌≡◌, refl, ap, Bool, true, false, ◌⊎◌, inl, inr, List, [], ◌∷◌, ◌++◌, Byte, Bytes, ◌==◌,
  if◌then◌else◌, arith, ◌↔◌, Bool-cases,
}
use redis_keyspace_amqp.Match.{accepts, match_star, matchhere, search_from, match}
use redis_keyspace_amqp.Match.Spec.{
  Item, one, star, items, to_end, at_start, body, Occurs, Here, Here-Word, Here-split,
}

module _ {end : Bool} {c : Byte} {is : List Item} where
  one_inv :
      {x : Byte} {t : Bytes} → Here end (one c ∷ is) (x ∷ t) → (accepts c x ≡ true) × Here end is t
  one_inv (Here.letter h d) = (h, d)

  star_inv :
      {x : Byte} {t : Bytes}
      → Here end (star c ∷ is) (x ∷ t)
      → Here end is (x ∷ t) ⊎ (accepts c x ≡ true) × Here end (star c ∷ is) t
  star_inv (Here.leave d) = inl d
  star_inv (Here.take h d) = inr (h, d)

  star_nil : Here end (star c ∷ is) [] → Here end is []
  star_nil (Here.leave d) = d

  not-Here-one_nil : ¬ Here end (one c ∷ is) []
  not-Here-one_nil d = elim d [ ]

  -- The loop tries `here` at the text, and after each byte that the starred one accepts.
  module _ (here : Bytes → Bool) where
    match_star_sound :
        ((t : Bytes) → here t ≡ true → Here end is t)
        → (t : Bytes) → match_star here c t ≡ true
        → Here end (star c ∷ is) t
    unfolding match_star
    match_star_sound ih [] h = Here.leave (ih [] h)
    match_star_sound ih (x ∷ t) h = elim (Bool-cases (here (x ∷ t))) [
      | inl now ↦ Here.leave (ih (x ∷ t) now)
      | inr later ↦
          let m : (accepts c x ≡ true) × (match_star here c t ≡ true) = ground arith in
          Here.take m.0 (match_star_sound ih t m.1)
    ]

    match_star_complete :
        ((t : Bytes) → Here end is t → here t ≡ true)
        → (t : Bytes) → Here end (star c ∷ is) t
        → match_star here c t ≡ true
    unfolding match_star
    match_star_complete ih [] d = ih [] (star_nil d)
    match_star_complete ih (x ∷ t) d = elim (star_inv d) [
      | inl now ↦ ground (arith, ih (x ∷ t) now)
      | inr (h, d') ↦ ground (arith, match_star_complete ih t d')
    ]

abbrev MatchesHere : Bytes → Bytes → Type 0
MatchesHere p t = Here (to_end p) (items p) t

matchhere_sound : (p t : Bytes) → matchhere p t ≡ true → MatchesHere p t
unfolding matchhere items to_end
matchhere_sound [] t h = Here.stop (λ e. cc)
matchhere_sound (c ∷ []) [] h = rw h (Here.stop (λ e. refl))
matchhere_sound (c ∷ []) (x ∷ t) h =
    let m : ((c == b'$') ≡ false) × (accepts c x ≡ true) = ground arith in
    rw m.0 (Here.letter m.1 (Here.stop (λ e. cc)))
matchhere_sound (c ∷ d ∷ p) [] h =
    let m : ((d == b'*') ≡ true) × (matchhere p [] ≡ true) = ground arith in
    rw m.0 (Here.leave (matchhere_sound p [] m.1))
matchhere_sound (c ∷ d ∷ p) (x ∷ t) h = elim (Bool-cases (d == b'*')) [
  | inl s ↦ rw s (match_star_sound (matchhere p) (matchhere_sound p) (x ∷ t) (rw s at h))
  | inr n ↦
      let m : (accepts c x ≡ true) × (matchhere (d ∷ p) t ≡ true) = ground arith in
      rw n (Here.letter m.0 (matchhere_sound (d ∷ p) t m.1))
]

stop_inv : {e : Bool} {t : Bytes} → Here e [] t → e ≡ true → t ≡ []
stop_inv (Here.stop h) = h

matchhere_complete : (p t : Bytes) → MatchesHere p t → matchhere p t ≡ true
unfolding matchhere items to_end
matchhere_complete [] t d = refl
matchhere_complete (c ∷ []) [] d = elim (Bool-cases (c == b'$')) [
  | inl s ↦ s
  | inr n ↦ absurd (not-Here-one_nil (rw n at d))
]
matchhere_complete (c ∷ []) (x ∷ t) d = elim (Bool-cases (c == b'$')) [
  | inl s ↦ cc (stop_inv (rw s at d) refl)
  | inr n ↦ ground (arith, (one_inv (rw n at d)).0)
]
matchhere_complete (c ∷ d ∷ p) [] h = elim (Bool-cases (d == b'*')) [
  | inl s ↦ rw s (matchhere_complete p [] (star_nil (rw s at h)))
  | inr n ↦ absurd (not-Here-one_nil (rw n at h))
]
matchhere_complete (c ∷ d ∷ p) (x ∷ t) h = elim (Bool-cases (d == b'*')) [
  | inl s ↦ rw s (match_star_complete (matchhere p) (matchhere_complete p) (x ∷ t) (rw s at h))
  | inr n ↦ let m = one_inv (rw n at h) in rw (n, m.0) (matchhere_complete (d ∷ p) t m.1)
]

-- Where `matchhere` succeeds in the text.
search_from_sound :
    (p t : Bytes)
    → search_from p t ≡ true
    → (pre : Bytes) × (t' : Bytes) × (t ≡ pre ++ t') × MatchesHere p t'
unfolding search_from
search_from_sound p [] h = ([], [], refl, matchhere_sound p [] h)
search_from_sound p (x ∷ t) h = elim (Bool-cases (matchhere p (x ∷ t))) [
  | inl now ↦ ([], x ∷ t, refl, matchhere_sound p (x ∷ t) now)
  | inr n ↦
      let (pre, t', e, d) = search_from_sound p t (rw n at h) in (x ∷ pre, t', ap (◌∷◌ x) e, d)
]

search_from-here : (p t : Bytes) → matchhere p t ≡ true → search_from p t ≡ true
unfolding search_from
search_from-here p [] h = h
search_from-here p (x ∷ t) h = rw h

search_from_complete : (p pre t : Bytes) → matchhere p t ≡ true → search_from p (pre ++ t) ≡ true
unfolding search_from
search_from_complete p [] t h = search_from-here p t h
search_from_complete p (x ∷ pre) t h = ground (arith, search_from_complete p pre t h)

-- `match` read through the mask's two parts.
match_parts :
    (mask t : Bytes)
    → match mask t ≡ (if at_start mask then matchhere (body mask) t else search_from (body mask) t)
unfolding match
match_parts [] t = refl
match_parts (c ∷ p) t = ground arith

match_sound : (mask t : Bytes) → match mask t ≡ true → Occurs mask t
match_sound mask t h = elim (Bool-cases (at_start mask)) [
  | inl s ↦
      let (w, r, e, d, k) = Here-split (matchhere_sound (body mask) t (rw (match_parts, s) at h)) in
      record {
        before = [];
        word = w;
        after = r;
        splits = e;
        is_word = d;
        starts = λ _. refl;
        ends = k;
      }
  | inr n ↦
      let (pre, t', e, m) = search_from_sound (body mask) t (rw (match_parts, n) at h) in
      let (w, r, e', d, k) = Here-split m in
      record {
        before = pre;
        word = w;
        after = r;
        splits = rw (← e') e;
        is_word = d;
        starts = λ y. cc;
        ends = k;
      }
]

Occurs-here :
    {mask t : Bytes} (o : Occurs mask t) → matchhere (body mask) (o.word ++ o.after) ≡ true
Occurs-here {mask} o = matchhere_complete (body mask) _ (Here-Word o.after o.ends o.is_word)

match_complete : (mask t : Bytes) → Occurs mask t → match mask t ≡ true
match_complete mask t o = elim (Bool-cases (at_start mask)) [
  | inl s ↦ rw (match_parts, s, o.splits, o.starts s) (Occurs-here o)
  | inr n ↦
      rw (match_parts, n, o.splits) (search_from_complete (body mask) o.before _ (Occurs-here o))
]

-- `match` answers true exactly on the texts in which the mask occurs.
pub match_iff : (mask text : Bytes) → (match mask text ≡ true) ↔ Occurs mask text
match_iff mask text = (match_sound mask text, match_complete mask text)
