-- ===== src/Utils/Split/Tests.antt =====
-- Small splits.
use co_uring_web.Prelude.{[], ◌∷◌, codes, none, ◌≡◌, refl, arith, bytes_eq}
use co_uring_web.Utils.Split.{split_text, split_to_strings, split_to_views, strings_join}
use co_uring_web.Utils.Split.Joining.{strings_join-split_to_strings}

three_pieces : split_to_views (codes "a--b--") (codes "--") none ≡ codes "a" ∷ codes "b" ∷ [] ∷ []
unfolding split_to_views split_text bytes_eq
three_pieces = refl

-- A text that is shorter than the delimiter is dropped.
too_short : split_to_strings (codes "a") (codes "--") none ≡ []
unfolding split_to_strings
too_short = refl

strings_join-split_to_strings_example :
    strings_join (split_to_strings (codes "a--b--") (codes "--") none) (codes "--") ≡ codes "a--b--"
strings_join-split_to_strings_example =
    strings_join-split_to_strings (codes "a--b--") (codes "--") (omega arith) (omega arith)
