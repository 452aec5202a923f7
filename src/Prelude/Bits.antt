-- ===== src/Prelude/Bits.antt =====
-- Laws of `bit_or` and `bit_and` at variables, from the digit recursion: an `|` of parts that share
-- no digit is a sum, and an `&` with 2 ^ k - 1 is a remainder.
use Prim.Native.Nat.{
  ℕ, zero, suc, ◌+◌, ◌*◌, ◌/◌, ◌%◌, ◌^◌, ◌≤◌, ◌<◌, min, max, bit_and, bit_or, digits,
  bit_and-bitwise, bit_or-bitwise,
}
use mathlib.Core.Path.{◌≡◌, refl, ap, sym, ◌∙◌}
use native.Mathlib.Nat.{pow-suc}
use native.Mathlib.Omega.{arith}

-- What is left of the digit recursion once its fuel is enough.
module _ (ending : ℕ → ℕ) (op : ℕ → ℕ → ℕ) where
  same_digits : (a n m b : ℕ) → a ≤ n → a ≤ m → digits ending op n a b ≡ digits ending op m a b
  same_digits zero zero zero b _ _ = refl
  same_digits zero zero (suc m) b _ _ = refl
  same_digits zero (suc n) zero b _ _ = refl
  same_digits zero (suc n) (suc m) b _ _ = refl
  same_digits (suc a) zero m b p _ = absurd (omega arith)
  same_digits (suc a) (suc n) zero b _ q = absurd (omega arith)
  same_digits (suc a) (suc n) (suc m) b p q =
      ap (λ t. t * 2 + op (suc a % 2) (b % 2))
        (same_digits (suc a / 2) n m (b / 2) (omega arith) (omega arith))

  of_half :
      (a b : ℕ)
      → digits ending op (suc a) (suc a) b
        ≡ digits ending op (suc a / 2) (suc a / 2) (b / 2) * 2 + op (suc a % 2) (b % 2)
  of_half a b =
      ap (λ t. t * 2 + op (suc a % 2) (b % 2))
        (same_digits (suc a / 2) a (suc a / 2) (b / 2) (omega arith) (omega arith))

zero-bit_or : (b : ℕ) → bit_or 0 b ≡ b
zero-bit_or b = bit_or-bitwise 0 b

-- The last digit, and the others.
or_last : (a b : ℕ) → bit_or a b ≡ bit_or (a / 2) (b / 2) * 2 + max (a % 2) (b % 2)
or_last zero b = omega (arith, zero-bit_or b, zero-bit_or (b / 2))
or_last (suc a) b =
    bit_or-bitwise (suc a) b
    ∙ of_half (λ c. c) max a b
    ∙ ap (λ t. t * 2 + max (suc a % 2) (b % 2)) (sym (bit_or-bitwise (suc a / 2) (b / 2)))

digits-max-zero : (n a : ℕ) → a ≤ n → digits (λ c. c) max n a 0 ≡ a
digits-max-zero zero zero _ = refl
digits-max-zero (suc n) zero _ = refl
digits-max-zero zero (suc a) h = absurd (omega arith)
digits-max-zero (suc n) (suc a) h = omega (arith, digits-max-zero n (suc a / 2) (omega arith))

pub bit_or-zero : (a : ℕ) → bit_or a 0 ≡ a
bit_or-zero a = bit_or-bitwise a 0 ∙ digits-max-zero a a (omega arith)

bit_or_double : (x b : ℕ) → bit_or (x * 2) b ≡ bit_or x (b / 2) * 2 + b % 2
bit_or_double x b =
    let e : x * 2 / 2 ≡ x = omega arith in omega (arith, rw e at (or_last (x * 2) b))

-- Parts with no digit in common: `bit_or` is a sum.
pub bit_or_disjoint : (k a b : ℕ) → b < 2 ^ k → bit_or (a * 2 ^ k) b ≡ a * 2 ^ k + b
bit_or_disjoint zero a b h =
    let e : b ≡ 0 = omega arith in rw e (omega (arith, bit_or-zero (a * 2 ^ 0)))
bit_or_disjoint (suc k) a b h =
    let e : a * 2 ^ suc k ≡ a * 2 ^ k * 2 = omega (arith, ap (λ (t : ℕ). a * t) (pow-suc 2 k)) in
    rw (e, bit_or_double)
      (omega (arith, pow-suc 2 k, bit_or_disjoint k a (b / 2) (omega (arith, pow-suc 2 k))))

double-bit_or : (b x : ℕ) → bit_or b (x * 2) ≡ bit_or (b / 2) x * 2 + b % 2
double-bit_or b x =
    let e : x * 2 / 2 ≡ x = omega arith in omega (arith, rw e at (or_last b (x * 2)))

-- The same with the high part on the right.
pub low_bit_or : (k a b : ℕ) → b < 2 ^ k → bit_or b (a * 2 ^ k) ≡ a * 2 ^ k + b
low_bit_or zero a b h = let e : b ≡ 0 = omega arith in rw e (omega (arith, zero-bit_or (a * 2 ^ 0)))
low_bit_or (suc k) a b h =
    let e : a * 2 ^ suc k ≡ a * 2 ^ k * 2 = omega (arith, ap (λ (t : ℕ). a * t) (pow-suc 2 k)) in
    rw (e, double-bit_or)
      (omega (arith, pow-suc 2 k, low_bit_or k a (b / 2) (omega (arith, pow-suc 2 k))))

and_last : (a b : ℕ) → bit_and a b ≡ bit_and (a / 2) (b / 2) * 2 + min (a % 2) (b % 2)
and_last zero b = omega (arith, bit_and-bitwise 0 b, bit_and-bitwise 0 (b / 2))
and_last (suc a) b =
    bit_and-bitwise (suc a) b
    ∙ of_half (λ c. 0) min a b
    ∙ ap (λ t. t * 2 + min (suc a % 2) (b % 2)) (sym (bit_and-bitwise (suc a / 2) (b / 2)))

digits-min-zero : (n a : ℕ) → digits (λ c. 0) min n a 0 ≡ 0
digits-min-zero zero a = refl
digits-min-zero (suc n) zero = refl
digits-min-zero (suc n) (suc a) = omega (arith, digits-min-zero n (suc a / 2))

bit_and-zero : (a : ℕ) → bit_and a 0 ≡ 0
bit_and-zero a = bit_and-bitwise a 0 ∙ digits-min-zero a a

-- The masks of the source, a power of two less one.
pub bit_and_0x1 : (a : ℕ) → bit_and a 0x1 ≡ a % 2
bit_and_0x1 a = omega (arith, and_last a 1, bit_and-zero (a / 2))

pub bit_and_0x3 : (a : ℕ) → bit_and a 0x3 ≡ a % 4
bit_and_0x3 a = omega (arith, and_last a 3, bit_and_0x1 (a / 2))

pub bit_and_0x7 : (a : ℕ) → bit_and a 0x7 ≡ a % 8
bit_and_0x7 a = omega (arith, and_last a 7, bit_and_0x3 (a / 2))

pub bit_and_0xf : (a : ℕ) → bit_and a 0xf ≡ a % 16
bit_and_0xf a = omega (arith, and_last a 15, bit_and_0x7 (a / 2))

pub bit_and_0x1f : (a : ℕ) → bit_and a 0x1f ≡ a % 32
bit_and_0x1f a = omega (arith, and_last a 31, bit_and_0xf (a / 2))

pub bit_and_0x3f : (a : ℕ) → bit_and a 0x3f ≡ a % 64
bit_and_0x3f a = omega (arith, and_last a 63, bit_and_0x1f (a / 2))

pub bit_and_0x7f : (a : ℕ) → bit_and a 0x7f ≡ a % 128
bit_and_0x7f a = omega (arith, and_last a 127, bit_and_0x3f (a / 2))
