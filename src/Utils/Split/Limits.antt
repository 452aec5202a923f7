-- ===== src/Utils/Split/Limits.antt =====
-- What `maxsplit` does: a split keeps the first pieces, and drops what lies behind them.
use co_uring_web.Prelude.{
  ℕ, zero, suc, false, none, some, [], ◌∷◌, ◌++◌, Bytes, length, take, drop, bytes_eq, ◌==◌, ltb,
  ◌||◌, ◌≡◌, refl, ap, arith, Bool-cases, inl, inr,
}
use co_uring_web.Utils.Split.{
  last_piece, split_char, split_text, split_to_strings, split_to_strings_char,
}

take-last_piece :
    (n : ℕ) (piece : Bytes) → last_piece (some n) piece ≡ take n (last_piece none piece)
take-last_piece zero piece = refl
take-last_piece (suc zero) piece = refl
take-last_piece (suc (suc n)) piece = refl

split_char-take :
    (d n : ℕ) (piece rest : Bytes)
    → split_char d (some n) piece rest ≡ take n (split_char d none piece rest)
unfolding split_char
split_char-take d n piece [] = take-last_piece n piece
split_char-take d zero piece (c ∷ rest) = refl
split_char-take d (suc n) piece (c ∷ rest) = elim (Bool-cases (c == d)) [
  | inl e ↦ rw e (ap (λ l. piece ∷ l) (split_char-take d n [] rest))
  | inr e ↦ rw e (split_char-take d (suc n) (piece ++ c ∷ []) rest)
]

split_text-take :
    (fuel : ℕ) (d : Bytes) (n : ℕ) (piece rest : Bytes)
    → split_text fuel d (some n) piece rest ≡ take n (split_text fuel d none piece rest)
unfolding split_text
split_text-take zero d zero piece rest = refl
split_text-take zero d (suc n) piece rest = refl
split_text-take (suc fuel) d n piece [] = take-last_piece n piece
split_text-take (suc fuel) d zero piece (c ∷ rest) = refl
split_text-take (suc fuel) d (suc n) piece (c ∷ rest) =
    elim (Bool-cases (bytes_eq (take (length d) (c ∷ rest)) d)) [
      | inl e ↦
          rw e (ap (λ l. piece ∷ l) (split_text-take fuel d n [] (drop (length d) (c ∷ rest))))
      | inr e ↦ rw e (split_text-take fuel d (suc n) (piece ++ c ∷ []) rest)
    ]

-- With a limit n, `splitToStrings` by a string returns the first n pieces of the split without one.
pub split_to_strings-take :
    (str delimiter : Bytes) (n : ℕ)
    → split_to_strings str delimiter (some n) ≡ take n (split_to_strings str delimiter none)
unfolding split_to_strings
split_to_strings-take str d zero = refl
split_to_strings-take str d (suc n) =
    elim (Bool-cases (ltb (length str) (length d) || length str == 0 || length d == 0)) [
      | inl e ↦ rw e refl
      | inr e ↦ rw e (split_text-take (suc (length str)) d (suc n) [] str)
    ]

-- With a limit n, `splitToStrings` by a character returns the first n pieces of the split without one.
pub split_to_strings_char-take :
    (str : Bytes) (delimiter n : ℕ)
    → split_to_strings_char str delimiter (some n)
      ≡ take n (split_to_strings_char str delimiter none)
unfolding split_to_strings_char
split_to_strings_char-take str d zero = refl
split_to_strings_char-take [] d (suc n) = refl
split_to_strings_char-take (c ∷ str) d (suc n) =
    let go : (length (c ∷ str) == 0) ≡ false = ground arith in
    rw go (split_char-take d (suc n) [] (c ∷ str))
