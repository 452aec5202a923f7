-- ===== src/Utils/Split.antt =====
-- `splitToViews`, `splitToStrings` and `stringsJoin` of include/utils.h. A view and a string are the
-- same list of bytes. `maxsplit` is `none` where it is negative, and then stays so: a text has fewer
-- than 2 ^ 31 pieces.
pub mod Limits
pub mod Joining
pub mod Lacks
mod Tests
use co_uring_web.Prelude.{
  ℕ, zero, suc, Bool, true, false, Option, none, some, List, [], ◌∷◌, ◌++◌, Bytes, length, take,
  drop, bytes_eq, ◌==◌, ltb, ◌||◌, if◌then◌else◌,
}

-- `maxsplit == 0`
abbrev pub is_spent : Option ℕ → Bool
is_spent none = false
is_spent (some zero) = true
is_spent (some (suc n)) = false

-- `maxsplit--`
abbrev pub one_less : Option ℕ → Option ℕ
one_less none = none
one_less (some zero) = none
one_less (some (suc n)) = some n

-- `str.substr(point, str.size() - point)` behind the loop, where `piece` is the text from `point` on.
abbrev pub last_piece : Option ℕ → Bytes → List Bytes
last_piece limit piece = if is_spent limit then [] else piece ∷ []

-- The loop over `i`: `piece` is the text from `point` to `i`, then comes the rest of the text.
unfoldable pub split_char : ℕ → Option ℕ → Bytes → Bytes → List Bytes
split_char delimiter limit piece [] = last_piece limit piece
split_char delimiter limit piece (c ∷ rest) =
    let found = piece ∷ split_char delimiter (one_less limit) [] rest in
    let later = split_char delimiter limit (piece ++ c ∷ []) rest in
    if is_spent limit then [] else if c == delimiter then found else later

-- The same for a delimiter of several bytes, on fuel: each round shortens the rest.
unfoldable pub split_text : ℕ → Bytes → Option ℕ → Bytes → Bytes → List Bytes
split_text zero delimiter limit piece rest = []
split_text (suc fuel) delimiter limit piece [] = last_piece limit piece
split_text (suc fuel) delimiter limit piece (c ∷ rest) =
    let behind = drop (length delimiter) (c ∷ rest) in
    let found = piece ∷ split_text fuel delimiter (one_less limit) [] behind in
    let later = split_text fuel delimiter limit (piece ++ c ∷ []) rest in
    if is_spent limit
    then []
    else if bytes_eq (take (length delimiter) (c ∷ rest)) delimiter
    then found
    else later

-- The overloads with a string as the delimiter.
unfoldable pub split_to_views : Bytes → Bytes → Option ℕ → List Bytes
split_to_views str delimiter maxsplit =
    if is_spent maxsplit
      || ltb (length str) (length delimiter)
      || length str == 0
      || length delimiter == 0
    then []
    else split_text (suc (length str)) delimiter maxsplit [] str

pub split_to_strings : Bytes → Bytes → Option ℕ → List Bytes
split_to_strings str delimiter maxsplit =
    if is_spent maxsplit
      || ltb (length str) (length delimiter)
      || length str == 0
      || length delimiter == 0
    then []
    else split_text (suc (length str)) delimiter maxsplit [] str

-- The overloads with a character.
unfoldable pub split_to_views_char : Bytes → ℕ → Option ℕ → List Bytes
split_to_views_char str delimiter maxsplit =
    if is_spent maxsplit || length str == 0 then [] else split_char delimiter maxsplit [] str

pub split_to_strings_char : Bytes → ℕ → Option ℕ → List Bytes
split_to_strings_char str delimiter maxsplit =
    if is_spent maxsplit || length str == 0 then [] else split_char delimiter maxsplit [] str

-- The loop over all strings but the last, which comes behind it.
pub join_with : Bytes → List Bytes → Bytes
join_with sv [] = []
join_with sv (s ∷ []) = s
join_with sv (s ∷ t ∷ v) = s ++ (sv ++ join_with sv (t ∷ v))

pub join_plain : List Bytes → Bytes
join_plain [] = []
join_plain (s ∷ v) = s ++ join_plain v

pub strings_join : List Bytes → Bytes → Bytes
strings_join [] sv = []
strings_join (s ∷ []) sv = s
strings_join (s ∷ t ∷ v) [] = join_plain (s ∷ t ∷ v)
strings_join (s ∷ t ∷ v) (c ∷ sv) = join_with (c ∷ sv) (s ∷ t ∷ v)
