-- ===== src/Match.antt =====
-- utils.c, lines 133-165: Pike's matcher for key masks. A C string is the list of its bytes, so
-- `*text == '\0'` is the empty list.
pub mod Spec
pub mod Decides
pub mod Plain
use redis_keyspace_amqp.Base.{Bool, true, false, ◌||◌, [], ◌∷◌, Byte, Bytes, ◌==◌, if◌then◌else◌}

-- `c == '.' || c == x`
abbrev pub accepts : Byte → Byte → Bool
accepts c x = c == b'.' || c == x

-- The `do … while` of lines 141-144, after `here` has been given the pattern behind the star.
unfoldable pub match_star : (Bytes → Bool) → Byte → Bytes → Bool
match_star here c [] = here []
match_star here c (x ∷ text) =
    let more = match_star here c text in
    if here (x ∷ text) then true else if accepts c x then more else false

-- The last two tests, lines 148-152, for a pattern `c` alone.
abbrev pub match_last : Byte → Bytes → Bool
match_last c [] = c == b'$'
match_last c (x ∷ text) = if c == b'$' then false else accepts c x

unfoldable pub matchhere : Bytes → Bytes → Bool
unfolding match_star
matchhere [] text = true
matchhere (c ∷ []) text = match_last c text
matchhere (c ∷ d ∷ p) [] = if d == b'*' then matchhere p [] else false
matchhere (c ∷ d ∷ p) (x ∷ text) =
    let star = match_star (matchhere p) c (x ∷ text) in
    let one = matchhere (d ∷ p) text in
    if d == b'*' then star else if accepts c x then one else false

-- Lines 160-163: try each suffix of the text, the empty one too.
unfoldable pub search_from : Bytes → Bytes → Bool
unfolding matchhere
search_from p [] = matchhere p []
search_from p (x ∷ text) =
    let later = search_from p text in if matchhere p (x ∷ text) then true else later

unfoldable pub match : Bytes → Bytes → Bool
unfolding search_from
match [] text = search_from [] text
match (c ∷ p) text = if c == b'^' then matchhere p text else search_from (c ∷ p) text
