-- ===== src/Utils/Split/Joining.antt =====
-- `stringsJoin` puts together again what a split without a limit took apart.
use co_uring_web.Prelude.{
  ℕ, zero, suc, ◌<◌, ◌≤◌, false, none, List, [], ◌∷◌, ◌++◌, Bytes, length, take, drop, bytes_eq,
  bytes_eq→eq, ◌==◌, ltb, ◌||◌, ◌≡◌, refl, sym, ◌∙◌, ap, arith, Bool-cases, inl, inr, append-nil,
  append_assoc, take-append-drop, length-drop, ==_iff,
}
use co_uring_web.Utils.Split.{
  split_char, split_text, split_to_strings, split_to_strings_char, join_with, strings_join,
}

strings_join-eq :
    (v : List Bytes) (c : ℕ) (sv : Bytes) → strings_join v (c ∷ sv) ≡ join_with (c ∷ sv) v
unfolding strings_join join_with
strings_join-eq [] c sv = refl
strings_join-eq (s ∷ []) c sv = refl
strings_join-eq (s ∷ t ∷ v) c sv = refl

join_with-cons :
    (sv s : Bytes) (v : List Bytes) (t : Bytes) (w : List Bytes)
    → v ≡ t ∷ w
    → join_with sv (s ∷ v) ≡ s ++ (sv ++ join_with sv v)
unfolding join_with
join_with-cons sv s v t w e = rw e refl

split_char-cons :
    (d : ℕ) (piece rest : Bytes)
    → (t : Bytes) × (w : List Bytes) × (split_char d none piece rest ≡ t ∷ w)
unfolding split_char
split_char-cons d piece [] = (piece, [], refl)
split_char-cons d piece (c ∷ rest) = elim (Bool-cases (c == d)) [
  | inl e ↦ (piece, split_char d none [] rest, rw e refl)
  | inr e ↦ let (t, w, h) = split_char-cons d (piece ++ c ∷ []) rest in (t, w, rw e h)
]

join_with-split_char :
    (d : ℕ) (piece rest : Bytes) → join_with (d ∷ []) (split_char d none piece rest) ≡ piece ++ rest
unfolding split_char
join_with-split_char d piece [] = unfold join_with in sym (append-nil piece)
join_with-split_char d piece (c ∷ rest) = elim (Bool-cases (c == d)) [
  | inl e ↦
      let (t, w, h) = split_char-cons d [] rest in
      rw e (
        join_with-cons (d ∷ []) piece (split_char d none [] rest) t w h
        ∙ ap (λ l. piece ++ d ∷ l) (join_with-split_char d [] rest)
        ∙ ap (λ k. piece ++ k ∷ rest) (sym ((==_iff c d).0 e)))
  | inr e ↦ rw e (join_with-split_char d (piece ++ c ∷ []) rest ∙ append_assoc piece (c ∷ []) rest)
]

-- Joining the pieces of a split by a character with that character gives the text back.
pub strings_join-split_to_strings_char :
    (str : Bytes) (delimiter : ℕ)
    → strings_join (split_to_strings_char str delimiter none) (delimiter ∷ []) ≡ str
unfolding split_to_strings_char
strings_join-split_to_strings_char [] d = unfold strings_join in refl
strings_join-split_to_strings_char (c ∷ str) d =
    let go : (length (c ∷ str) == 0) ≡ false = ground arith in
    rw go
      (strings_join-eq (split_char d none [] (c ∷ str)) d [] ∙ join_with-split_char d [] (c ∷ str))

split_text-cons :
    (fuel : ℕ) (d piece rest : Bytes)
    → length rest < fuel
    → (t : Bytes) × (w : List Bytes) × (split_text fuel d none piece rest ≡ t ∷ w)
unfolding split_text
split_text-cons zero d piece rest l = absurd (omega arith)
split_text-cons (suc fuel) d piece [] l = (piece, [], refl)
split_text-cons (suc fuel) d piece (c ∷ rest) l =
    elim (Bool-cases (bytes_eq (take (length d) (c ∷ rest)) d)) [
      | inl e ↦ (piece, split_text fuel d none [] (drop (length d) (c ∷ rest)), rw e refl)
      | inr e ↦
          let (t, w, h) = split_text-cons fuel d (piece ++ c ∷ []) rest (omega arith) in
          (t, w, rw e h)
    ]

join_with-split_text :
    (fuel : ℕ) (d piece rest : Bytes)
    → length rest < fuel
    → 0 < length d
    → join_with d (split_text fuel d none piece rest) ≡ piece ++ rest
unfolding split_text
join_with-split_text zero d piece rest l k = absurd (omega arith)
join_with-split_text (suc fuel) d piece [] l k = unfold join_with in sym (append-nil piece)
join_with-split_text (suc fuel) d piece (c ∷ rest) l k =
    elim (Bool-cases (bytes_eq (take (length d) (c ∷ rest)) d)) [
      | inl e ↦
          let behind = drop (length d) (c ∷ rest) in
          let fewer : length behind < fuel = omega (arith, length-drop (length d) (c ∷ rest)) in
          let (t, w, h) = split_text-cons fuel d [] behind fewer in
          rw e (
            join_with-cons d piece (split_text fuel d none [] behind) t w h
            ∙ ap (λ l. piece ++ (d ++ l)) (join_with-split_text fuel d [] behind fewer k)
            ∙ ap (λ l. piece ++ (l ++ behind)) (sym (bytes_eq→eq (take (length d) (c ∷ rest)) d e))
            ∙ ap (λ l. piece ++ l) (take-append-drop (length d) (c ∷ rest)))
      | inr e ↦ rw e (
          join_with-split_text fuel d (piece ++ c ∷ []) rest (omega arith) k
          ∙ append_assoc piece (c ∷ []) rest)
    ]

-- Joining the pieces of a split by a string that is not empty and not longer than the text with that
-- string gives the text back.
pub strings_join-split_to_strings :
    (str delimiter : Bytes)
    → 0 < length delimiter
    → length delimiter ≤ length str
    → strings_join (split_to_strings str delimiter none) delimiter ≡ str
unfolding split_to_strings
strings_join-split_to_strings str [] k l = absurd (omega arith)
strings_join-split_to_strings str (d ∷ ds) k l =
    let go : (ltb (length str) (length (d ∷ ds)) || length str == 0 || length (d ∷ ds) == 0)
        ≡ false =
      ground arith in
    rw go (
      strings_join-eq (split_text (suc (length str)) (d ∷ ds) none [] str) d ds
      ∙ join_with-split_text (suc (length str)) (d ∷ ds) [] str (omega arith) k)
