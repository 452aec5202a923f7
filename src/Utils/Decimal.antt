-- ===== src/Utils/Decimal.antt =====
-- `std::to_string` of a number of at most 20 digits, which holds for every 64-bit number.
use co_uring_web.Prelude.{
  ℕ, zero, suc, ◌+◌, ◌-◌, ◌*◌, ◌/◌, ◌%◌, ◌^◌, ◌<◌, ◌≤◌, [], ◌∷◌, Bytes, ltb, if◌then◌else◌, ◌≡◌,
  arith, ap, ◌∙◌, Bool-cases, inl, inr,
}
use native.Mathlib.Nat.{pow-suc}

-- The digits of `n` before `acc`, the last digit first.
unfoldable pub digits_of : ℕ → ℕ → Bytes → Bytes
digits_of zero n acc = acc
digits_of (suc fuel) n acc =
    let rest = digits_of fuel (n / 10) ((48 + n % 10) ∷ acc) in
    if ltb n 10 then (48 + n) ∷ acc else rest

unfoldable pub to_string : ℕ → Bytes
unfolding digits_of
to_string n = digits_of 20 n []

abbrev value_from : ℕ → Bytes → ℕ
value_from n [] = n
value_from n (c ∷ cs) = value_from (n * 10 + (c - 48)) cs

-- The number that a sequence of digits stands for.
abbrev pub value : Bytes → ℕ
value = value_from 0

value-digits_of :
    (fuel n : ℕ) (acc : Bytes) → n < 10 ^ fuel → value (digits_of fuel n acc) ≡ value_from n acc
unfolding digits_of
value-digits_of zero n acc h = let e : n ≡ 0 = omega arith in rw e
value-digits_of (suc fuel) n acc h = elim (Bool-cases (ltb n 10)) [
  | inl e ↦ rw e (ap (λ k. value_from k acc) (omega arith))
  | inr e ↦ rw e (
      value-digits_of fuel (n / 10) ((48 + n % 10) ∷ acc) (omega (arith, pow-suc 10 fuel))
      ∙ ap (λ k. value_from k acc) (omega arith))
]

-- `to_string` writes the decimal digits of its number.
pub value-to_string : (n : ℕ) → n < 10 ^ 20 → value (to_string n) ≡ n
value-to_string n h = unfold to_string in value-digits_of 20 n [] h

-- A number of three digits.
pub to_string_three :
    (n : ℕ)
    → 100 ≤ n
    → n < 1000
    → to_string n ≡ (48 + n / 100) ∷ (48 + n / 10 % 10) ∷ (48 + n % 10) ∷ []
unfolding to_string
to_string_three n h k = ground arith
