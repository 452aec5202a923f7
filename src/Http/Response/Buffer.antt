-- ===== src/Http/Response/Buffer.antt =====
-- A buffer with the index that the code writes at.
use co_uring_web.Prelude.{
  ℕ, ◌+◌, [], ◌∷◌, ◌++◌, Bytes, length, take, drop, leb, ltb, if◌then◌else◌, set,
}

-- `thrown` is a C++ exception, which the callers catch, with the buffer as it was left; `fault` is
-- undefined behaviour.
pub data Outcome {ℓ} (A : Type ℓ) : Type ℓ where
  ok : A → Outcome A
  thrown : Bytes → Outcome A
  fault : Outcome A

infixl 5 ◌>>=◌ ◌>>◌
abbrev pub ◌>>=◌ {ℓ κ} : {A : Type ℓ} {B : Type κ} → Outcome A → (A → Outcome B) → Outcome B
ok a >>= f = f a
thrown b >>= f = thrown b
fault >>= f = fault

abbrev pub ◌>>◌ {ℓ} : {B : Type ℓ} → Outcome (Unit {0}) → Outcome B → Outcome B
m >> k = m >>= λ _. k

pub record Writer : Type 0 where
  pub buffer : Bytes
  pub index : ℕ

-- The bytes of `src` written over the buffer from `i` on.
abbrev pub overlay : ℕ → Bytes → Bytes → Bytes
overlay i src buffer = take i buffer ++ (src ++ drop (i + length src) buffer)

-- `memcpy(data + index, src, size); index += size`
unfoldable pub copy : Bytes → Writer → Outcome Writer
copy src w =
    if leb (w.index + length src) (length w.buffer)
    then ok (record { buffer = overlay w.index src w.buffer; index = w.index + length src })
    else fault

-- `memcpy(data, src, size); index += size`
unfoldable pub copy_front : Bytes → Writer → Outcome Writer
copy_front src w =
    if leb (length src) (length w.buffer)
    then ok (record { buffer = overlay 0 src w.buffer; index = w.index + length src })
    else fault

-- `res.at(index) = c; index++`
unfoldable pub put_at : ℕ → Writer → Outcome Writer
put_at c w =
    if ltb w.index (length w.buffer)
    then ok (record { buffer = set w.buffer w.index c; index = w.index + 1 })
    else thrown w.buffer

-- `buffer[index] = c; index++`
unfoldable pub put_raw : ℕ → Writer → Outcome Writer
put_raw c w =
    if ltb w.index (length w.buffer)
    then ok (record { buffer = set w.buffer w.index c; index = w.index + 1 })
    else fault

-- The exception for an unknown status code.
abbrev pub guard : Bytes → Writer → Outcome (Unit {0})
guard [] w = thrown w.buffer
guard (_ ∷ _) w = ok tt
