-- ===== src/Json/RoundTrip/Numbers.antt =====
-- Integers: `parseNum` reads what `dumpNum` writes.
use co_uring_web.Prelude.{
  ℕ, zero, suc, ◌+◌, ◌-◌, ◌*◌, ◌/◌, ◌%◌, ◌^◌, ◌<◌, true, false, some, [], ◌∷◌, ◌++◌, Bytes, ◌==◌,
  ltb, ◌≡◌, refl, ap, ◌∙◌, arith, Bool-cases, inl, inr, All,
}
use native.Mathlib.Nat.{pow-suc}
use co_uring_web.Prelude.Int.{ℤ, pos, negsuc}
use co_uring_web.Utils.Decimal.{digits_of, to_string}
use co_uring_web.Json.{json_integer}
use co_uring_web.Json.Parsed.{parsed}
use co_uring_web.Json.Number.{
  is_digit, is_number_char, get_num, any_double_char, digits_value, minus, plus, read_int64,
  write_int64, parse_num,
}

abbrev IsDigits : Bytes → Type 0
IsDigits = All (λ c. is_digit c ≡ true)

digits_of-IsDigits : (fuel n : ℕ) (acc : Bytes) → IsDigits acc → IsDigits (digits_of fuel n acc)
unfolding digits_of
digits_of-IsDigits zero n acc h = h
digits_of-IsDigits (suc fuel) n acc h = elim (Bool-cases (ltb n 10)) [
  | inl e ↦ rw e (ground arith, h)
  | inr e ↦ rw e (digits_of-IsDigits fuel (n / 10) ((48 + n % 10) ∷ acc) (ground arith, h))
]

digits_value-digits_of :
    (fuel n : ℕ) (acc : Bytes)
    → n < 10 ^ fuel
    → digits_value 0 (digits_of fuel n acc) ≡ digits_value n acc
unfolding digits_of
digits_value-digits_of zero n acc h = let e : n ≡ 0 = omega arith in rw e
digits_value-digits_of (suc fuel) n acc h = elim (Bool-cases (ltb n 10)) [
  | inl e ↦ ground arith
  | inr e ↦
      let digit : is_digit (48 + n % 10) ≡ true = ground arith in
      let whole : n / 10 * 10 + (48 + n % 10 - 48) ≡ n = omega arith in
      rw e (
        digits_value-digits_of fuel (n / 10) ((48 + n % 10) ∷ acc) (omega (arith, pow-suc 10 fuel))
        ∙ rw digit (ap (λ k. digits_value k acc) whole))
]

to_string-IsDigits : (n : ℕ) → IsDigits (to_string n)
unfolding to_string
to_string-IsDigits n = digits_of-IsDigits 20 n [] tt

digits_value-to_string : (n : ℕ) → n < 10 ^ 20 → digits_value 0 (to_string n) ≡ n
unfolding to_string
digits_value-to_string n h = digits_value-digits_of 20 n [] h

-- An integer that an int64_t holds.
abbrev pub IsInt64 : ℤ → Type 0
IsInt64 (pos n) = n < 2 ^ 63
IsInt64 (negsuc n) = n < 2 ^ 63

get_num-digits :
    (num : Bytes) (c : ℕ) (rest : Bytes)
    → IsDigits num
    → is_number_char c ≡ false
    → get_num (num ++ c ∷ rest) ≡ some (num, c ∷ rest)
unfolding get_num
get_num-digits [] c rest h e = rw e refl
get_num-digits (d ∷ num) c rest (w, h) e = rw (get_num-digits num c rest h e) (ground arith)

no_double_char : (num : Bytes) → IsDigits num → any_double_char num ≡ false
no_double_char [] h = refl
no_double_char (d ∷ num) (w, h) = ground (arith, no_double_char num h)

read_int64-digits : (num : Bytes) → IsDigits num → read_int64 num ≡ plus (digits_value 0 num)
unfolding read_int64
read_int64-digits [] h = refl
read_int64-digits (d ∷ num) (w, h) =
    let not_minus : (d == b'-') ≡ false = ground arith in
    let not_plus : (d == b'+') ≡ false = ground arith in rw (not_minus, not_plus) refl

read_int64-write_int64 : (n : ℤ) → IsInt64 n → read_int64 (write_int64 n) ≡ n
read_int64-write_int64 (pos n) h =
    read_int64-digits (to_string n) (to_string-IsDigits n)
    ∙ ap plus (digits_value-to_string n (omega arith))
    ∙ ground arith
read_int64-write_int64 (negsuc n) h =
    unfold read_int64 in ap minus (digits_value-to_string (suc n) (omega arith)) ∙ ground arith

get_num-write_int64 :
    (n : ℤ) (c : ℕ) (rest : Bytes)
    → is_number_char c ≡ false
    → get_num (write_int64 n ++ c ∷ rest) ≡ some (write_int64 n, c ∷ rest)
get_num-write_int64 (pos n) c rest e = get_num-digits (to_string n) c rest (to_string-IsDigits n) e
get_num-write_int64 (negsuc n) c rest e =
    let digits = get_num-digits (to_string (suc n)) c rest (to_string-IsDigits (suc n)) e in
    unfold get_num in rw digits refl

write_int64_no_double : (n : ℤ) → any_double_char (write_int64 n) ≡ false
write_int64_no_double (pos n) = no_double_char (to_string n) (to_string-IsDigits n)
write_int64_no_double (negsuc n) = no_double_char (to_string (suc n)) (to_string-IsDigits (suc n))

module _ {D : Type 0} (read_double : Bytes → D) where
  pub parse_num-write_int64 :
      (n : ℤ) (c : ℕ) (rest : Bytes)
      → IsInt64 n
      → is_number_char c ≡ false
      → parse_num read_double (write_int64 n ++ c ∷ rest) ≡ parsed (json_integer n) (c ∷ rest)
  unfolding parse_num
  parse_num-write_int64 n c rest h e =
      rw (get_num-write_int64 n c rest e)
        (rw (write_int64_no_double n, read_int64-write_int64 n h) refl)
