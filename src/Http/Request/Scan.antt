-- ===== src/Http/Request/Scan.antt =====
-- What each scanning step of the request parser accepts, both ways.
use co_uring_web.Prelude.{
  ℕ, zero, suc, Bool, true, false, some, [], ◌∷◌, ◌++◌, Bytes, length, take, drop, bytes_eq→eq,
  bytes_eq_self, ◌==◌, not, ◌&&◌, ◌≡◌, sym, ◌∙◌, ap, arith, replicate, take-length-append,
  drop-length-append, take-append-drop, Bool-cases, inl, inr, ==_self,
}
use co_uring_web.Prelude.Options.{>>=-elim}
use co_uring_web.Http.Request.{is_at, expect_space, read_until, skip_spaces, expect}

-- The byte does not occur.
abbrev pub absent : ℕ → Bytes → Bool
absent stop [] = true
absent stop (c ∷ cs) = not (c == stop) && absent stop cs

pub is_at-append : (text rest : Bytes) → is_at text (text ++ rest) ≡ true
unfolding is_at
is_at-append text rest = rw (take-length-append text rest) (bytes_eq_self text)

pub is_at-eq : (text rest : Bytes) → is_at text rest ≡ true → rest ≡ text ++ drop (length text) rest
unfolding is_at
is_at-eq text rest h =
    sym (take-append-drop (length text) rest)
    ∙ ap (λ (t : Bytes). t ++ drop (length text) rest)
        (bytes_eq→eq (take (length text) rest) text h)

pub expect-append : (text rest : Bytes) → expect text (text ++ rest) ≡ some rest
unfolding expect
expect-append text rest = rw (is_at-append text rest, drop-length-append text rest)

pub expect-eq :
    (text rest : Bytes) {rest' : Bytes} → expect text rest ≡ some rest' → rest ≡ text ++ rest'
unfolding expect
expect-eq text rest {rest'} h = elim (Bool-cases (is_at text rest)) [
  | inl e ↦ ground (arith, is_at-eq text rest e)
  | inr e ↦ ground arith
]

pub expect_space-eq :
    (rest : Bytes) {rest' : Bytes} → expect_space rest ≡ some rest' → rest ≡ b' ' ∷ rest'
unfolding expect_space
expect_space-eq [] h = ground arith
expect_space-eq (c ∷ rest) h = ground arith

pub read_until-append :
    (stop : ℕ) (passed rest : Bytes)
    → absent stop passed ≡ true
    → read_until stop (passed ++ stop ∷ rest) ≡ some (passed, stop ∷ rest)
unfolding read_until
read_until-append stop [] rest h = rw (==_self stop)
read_until-append stop (c ∷ passed) rest h = ground (arith, read_until-append stop passed rest)

pub read_until-eq :
    (stop : ℕ) (l : Bytes) {passed rest : Bytes}
    → read_until stop l ≡ some (passed, rest)
    → (l ≡ passed ++ stop ∷ drop 1 rest) × (absent stop passed ≡ true) × (rest ≡ stop ∷ drop 1 rest)
unfolding read_until
read_until-eq stop [] h = ground arith
read_until-eq stop (c ∷ l) {passed} {rest} h = elim (Bool-cases (c == stop)) [
  | inl e ↦ ground arith
  | inr e ↦
      >>=-elim (read_until stop l) (λ q. some (c ∷ q.0, q.1)) (rw e at h)
        λ q m f. ground (arith, read_until-eq stop l m, f)
]

-- The text does not begin with a space, and is not empty.
abbrev pub starts_solid : Bytes → Bool
starts_solid [] = false
starts_solid (c ∷ _) = not (c == b' ')

pub skip_spaces-append :
    (n : ℕ) (rest : Bytes)
    → starts_solid rest ≡ true
    → skip_spaces (replicate n b' ' ++ rest) ≡ some rest
unfolding skip_spaces
skip_spaces-append zero [] h = ground arith
skip_spaces-append zero (c ∷ rest) h = ground arith
skip_spaces-append (suc n) rest h = skip_spaces-append n rest h

pub skip_spaces-eq :
    (l : Bytes) {rest : Bytes}
    → skip_spaces l ≡ some rest
    → (n : ℕ) × (l ≡ replicate n b' ' ++ rest) × (starts_solid rest ≡ true)
unfolding skip_spaces
skip_spaces-eq [] h = ground arith
skip_spaces-eq (c ∷ l) h = elim (Bool-cases (c == b' ')) [
  | inl e ↦ let (n, m, solid) = skip_spaces-eq l (rw e at h) in (suc n, ground arith, solid)
  | inr e ↦ (0, ground arith, ground arith)
]
