-- ===== src/Utils/Hash/Laws.antt =====
-- The hash as a polynomial, and a collision.
use co_uring_web.Prelude.{
  ℕ, ◌+◌, ◌-◌, ◌*◌, ◌/◌, ◌%◌, ◌<◌, ◌≤◌, [], ◌∷◌, ◌++◌, Bytes, All, ◌≡◌, refl, sym, ap, ◌∙◌, arith,
}
use native.Mathlib.Nat.{
  div-add-mod, add-mul-mod_self_left, mul-le-mul_right, mod-add-mod, mul-add, add-mul, mul_comm,
  mul_assoc,
}
use co_uring_web.Utils.Hash.{
  u64_mod, hash_mod, letter_value, hash_from, string_hash, get_content_type,
}

hash_from-append :
    (power hash : ℕ) (str : Bytes)
    → hash < hash_mod
    → hash_from power hash (str ++ b'`' ∷ []) ≡ hash_from power hash str
unfolding hash_from
hash_from-append power hash [] h = omega arith
hash_from-append power hash (c ∷ str) h =
    hash_from-append (power * 31 % u64_mod % hash_mod)
      ((hash + letter_value c * power % u64_mod) % u64_mod % hash_mod) str (omega arith)

-- A backquote at the end of a text does not change its hash.
pub string_hash-append : (str : Bytes) → string_hash (str ++ b'`' ∷ []) ≡ string_hash str
unfolding string_hash
string_hash-append str = hash_from-append 1 0 str (omega arith)

-- An extension with a backquote at its end has the content type of the extension without it.
pub get_content_type-append :
    (file_ext : Bytes) → get_content_type (file_ext ++ b'`' ∷ []) ≡ get_content_type file_ext
unfolding get_content_type
get_content_type-append file_ext = rw (string_hash-append file_ext) refl

-- The value of a text as a polynomial in 31, the first letter with the power 0.
abbrev pub polynomial : Bytes → ℕ
polynomial [] = 0
polynomial (c ∷ str) = (c - 96) + 31 * polynomial str

abbrev pub IsLetter : ℕ → Type 0
IsLetter c = (b'a' ≤ c) × (c ≤ b'z')

scale : (k r P m : ℕ) → (k + (r % m) * P) % m ≡ (k + r * P) % m
scale k r P m =
    sym (add-mul-mod_self_left (k + r % m * P) m (r / m * P))
    ∙ ap (λ t. t % m)
        (omega (
          arith,
          ap (λ (t : ℕ). t * P) (div-add-mod r m),
          add-mul (m * (r / m)) (r % m) P,
          mul_assoc m (r / m) P,
        ))

round :
    (power hash c : ℕ)
    → hash < hash_mod
    → power < hash_mod
    → IsLetter c
    → (hash + letter_value c * power % u64_mod) % u64_mod ≡ hash + (c - 96) * power
round power hash c h p l =
    let value : letter_value c ≡ c - 96 = ground arith in
    let small : (c - 96) * power ≤ 26 * power = mul-le-mul_right power (omega arith) in
    rw value (omega arith)

hash_from-polynomial :
    (power hash : ℕ) (str : Bytes)
    → hash < hash_mod
    → power < hash_mod
    → All IsLetter str
    → hash_from power hash str ≡ (hash + power * polynomial str) % hash_mod
unfolding hash_from
hash_from-polynomial power hash [] h p l = omega arith
hash_from-polynomial power hash (c ∷ str) h p l = rw (round power hash c h p l.0) (
    hash_from-polynomial (power * 31 % u64_mod % hash_mod) ((hash + (c - 96) * power) % hash_mod)
      str (omega arith) (omega arith) l.1
    ∙ next (c - 96) (polynomial str))
  where
    next :
        (x P : ℕ)
        → ((hash + x * power) % hash_mod + power * 31 % u64_mod % hash_mod * P) % hash_mod
          ≡ (hash + power * (x + 31 * P)) % hash_mod
    next x P =
        let same : power * 31 % u64_mod % hash_mod ≡ power * 31 % hash_mod = omega arith in
        ap (λ t. ((hash + x * power) % hash_mod + t * P) % hash_mod) same
        ∙ scale ((hash + x * power) % hash_mod) (power * 31) P hash_mod
        ∙ mod-add-mod (hash + x * power) hash_mod (power * 31 * P)
        ∙ ap (λ t. t % hash_mod)
            (omega (arith, mul-add power x (31 * P), mul_comm x power, mul_assoc power 31 P))

-- The hash of a text of lower-case letters is its polynomial, modulo 10 ^ 9 + 9: nothing in the loop
-- overflows.
pub string_hash-polynomial :
    (str : Bytes) → All IsLetter str → string_hash str ≡ polynomial str % hash_mod
unfolding string_hash
string_hash-polynomial str l =
    hash_from-polynomial 1 0 str (omega arith) (omega arith) l
    ∙ ap (λ t. t % hash_mod) (omega arith)
