-- ===== src/Utils/Split/Lacks.antt =====
-- Splitting a text that lacks the delimiter, or its first byte.
use co_uring_web.Prelude.{
  ℕ, zero, suc, ◌<◌, false, none, [], ◌∷◌, ◌++◌, Bytes, All, length, take, drop, bytes_eq,
  bytes_eq_self, ◌==◌, ltb, ◌||◌, ◌≡◌, sym, ◌∙◌, ap, arith, append-nil, append_assoc,
  take-length-append, drop-length-append, length-append, ==_self,
}
use co_uring_web.Utils.Split.{split_char, split_text, split_to_views, split_to_views_char}

-- The text has no such byte.
abbrev pub Lacks : ℕ → Bytes → Type 0
Lacks c = All (λ x. (x == c) ≡ false)

split_char-Lacks :
    (c : ℕ) (piece rest : Bytes)
    → Lacks c rest
    → split_char c none piece rest ≡ (piece ++ rest) ∷ []
unfolding split_char
split_char-Lacks c piece [] h = ap (λ p. p ∷ []) (sym (append-nil piece))
split_char-Lacks c piece (x ∷ rest) (e, h) = rw e (
    split_char-Lacks c (piece ++ x ∷ []) rest h
    ∙ ap (λ p. p ∷ []) (append_assoc piece (x ∷ []) rest))

split_text-Lacks :
    (fuel c : ℕ) (base piece rest : Bytes)
    → Lacks c rest
    → length rest < fuel
    → split_text fuel (c ∷ base) none piece rest ≡ (piece ++ rest) ∷ []
unfolding split_text bytes_eq
split_text-Lacks zero c base piece rest h l = absurd (omega arith)
split_text-Lacks (suc fuel) c base piece [] h l = ap (λ p. p ∷ []) (sym (append-nil piece))
split_text-Lacks (suc fuel) c base piece (x ∷ rest) (e, h) l = rw e (
    split_text-Lacks fuel c base (piece ++ x ∷ []) rest h (omega arith)
    ∙ ap (λ p. p ∷ []) (append_assoc piece (x ∷ []) rest))

pub split_to_views-Lacks :
    (c : ℕ) (base rest : Bytes)
    → Lacks c rest
    → split_to_views ((c ∷ base) ++ rest) (c ∷ base) none ≡ [] ∷ rest ∷ []
unfolding split_to_views split_text
split_to_views-Lacks c base rest h =
    let name = c ∷ base in
    let go : (ltb (length (name ++ rest)) (length name)
          || length (name ++ rest) == 0
          || length name == 0)
        ≡ false =
      ground (arith, length-append name rest) in
    let front : take (length name) (name ++ rest) ≡ name = take-length-append name rest in
    let behind : drop (length name) (name ++ rest) ≡ rest = drop-length-append name rest in
    rw go (
      rw (ap (λ t. bytes_eq t name) front ∙ bytes_eq_self name) (
        rw behind (
          ap (λ v. [] ∷ v)
            (split_text-Lacks (length (name ++ rest)) c base [] rest h
              (omega (arith, length-append name rest))))))

split_char-found :
    (c : ℕ) (piece text rest : Bytes)
    → Lacks c text
    → split_char c none piece (text ++ c ∷ rest) ≡ (piece ++ text) ∷ split_char c none [] rest
unfolding split_char
split_char-found c piece [] rest h =
    rw (==_self c) (ap (λ p. p ∷ split_char c none [] rest) (sym (append-nil piece)))
split_char-found c piece (x ∷ text) rest (e, h) = rw e (
    split_char-found c (piece ++ x ∷ []) text rest h
    ∙ ap (λ p. p ∷ split_char c none [] rest) (append_assoc piece (x ∷ []) text))

-- A text of three pieces, of which the first is empty.
pub split_to_views_char-three :
    (c : ℕ) (text rest : Bytes)
    → Lacks c text
    → Lacks c rest
    → split_to_views_char (c ∷ text ++ c ∷ rest) c none ≡ [] ∷ text ∷ rest ∷ []
unfolding split_to_views_char
split_to_views_char-three c text rest h k =
    let go : (length (c ∷ text ++ c ∷ rest) == 0) ≡ false = ground arith in
    rw go (
      split_char-found c [] [] (text ++ c ∷ rest) tt
      ∙ ap (λ v. [] ∷ v)
          (split_char-found c [] text rest h ∙ ap (λ v. text ∷ v) (split_char-Lacks c [] rest k)))
