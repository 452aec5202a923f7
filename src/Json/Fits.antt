-- ===== src/Json/Fits.antt =====
-- What each method of the parser leaves of the text: less than it was given.
use co_uring_web.Prelude.{
  ℕ, zero, suc, ◌≤◌, ◌<◌, Bool, true, false, some, [], ◌∷◌, ◌++◌, Bytes, length, drop, leb, ◌≡◌,
  arith, length-drop, Bool-cases, Option-cases, inl, inr,
}
use co_uring_web.Json.Parsed.{Parsed, parsed, refused, out_of_fuel, ◌>>=◌}
use co_uring_web.Json.Text.{escape, string_loop, parse_string, parse_bool}
use co_uring_web.Json.Number.{is_number_char, get_num, parse_num}
use co_uring_web.Json.Parse.{number, label, enter, in_state}

-- The result leaves less than `n` bytes, and is no end of fuel.
abbrev pub Fits {ℓ} : {A : Type ℓ} → ℕ → Parsed A → Type 0
Fits n (parsed a rest) = length rest < n
Fits n refused = Unit
Fits n out_of_fuel = ⊥

pub Fits-weaken {ℓ} : {A : Type ℓ} (n k : ℕ) (m : Parsed A) → n ≤ k → Fits n m → Fits k m
Fits-weaken n k (parsed a rest) l h = omega arith
Fits-weaken n k refused l h = tt
Fits-weaken n k out_of_fuel l h = h

pub Fits->>= {ℓ κ} :
    {A : Type ℓ} {B : Type κ} (n k : ℕ) (m : Parsed A) (f : A × Bytes → Parsed B)
    → Fits n m
    → ((a : A) (rest : Bytes) → length rest < n → Fits k (f (a, rest)))
    → Fits k (m >>= f)
Fits->>= n k (parsed a rest) f h g = g a rest h
Fits->>= n k refused f h g = tt
Fits->>= n k out_of_fuel f h g = absurd h

pub Fits-enter {ℓ} :
    {A : Type ℓ} (n : ℕ) (view : Bytes) (m : Parsed A) → Fits n m → Fits n (enter view m)
Fits-enter n view m h = elim (Bool-cases (leb (length view) 1)) [ inl e ↦ rw e tt | inr e ↦ rw e h ]

pub Fits-in_state {ℓ} :
    {A : Type ℓ} (n : ℕ) (b : Bool) (m : Parsed A) → Fits n m → Fits n (in_state b m)
Fits-in_state n true m h = h
Fits-in_state n false m h = tt

escape_shorter :
    (view : Bytes) {bytes rest : Bytes}
    → escape view ≡ some (bytes, rest)
    → length rest < length view
unfolding escape
escape_shorter [] h = absurd (ground arith)
escape_shorter (c ∷ view) h = ground (arith, length-drop 4 view)

string_loop-Fits :
    (fuel : ℕ) (s view : Bytes)
    → length view < fuel
    → Fits (suc (length view)) (string_loop fuel s view)
unfolding string_loop
string_loop-Fits zero s view h = absurd (omega arith)
string_loop-Fits (suc fuel) s [] h = omega arith
string_loop-Fits (suc fuel) s (c ∷ view) h =
    let later =
      Fits-weaken (suc (length view)) (suc (suc (length view)))
        (string_loop fuel (s ++ c ∷ []) view) (omega arith)
        (string_loop-Fits fuel (s ++ c ∷ []) view (omega arith)) in
    elim (Option-cases (escape view)) [
      | inl e ↦ ground (arith, e, later)
      | inr ((bytes, rest), e) ↦
          let less : length rest < length view = escape_shorter view e in
          let behind =
            Fits-weaken (suc (length rest)) (suc (suc (length view)))
              (string_loop fuel (s ++ bytes) rest) (omega (arith, less))
              (string_loop-Fits fuel (s ++ bytes) rest (omega (arith, less))) in
          ground (arith, e, later, behind)
    ]

pub parse_string-Fits : (view : Bytes) → Fits (length view) (parse_string view)
unfolding parse_string
parse_string-Fits view = elim (Bool-cases (leb (length view) 3)) [
  | inl e ↦ rw e tt
  | inr e ↦ rw e (
      Fits-weaken (suc (length (drop 1 view))) (length view) _
        (omega (arith, more e, length-drop 1 view))
        (string_loop-Fits (suc (length view)) [] (drop 1 view) (omega (arith, length-drop 1 view))))
]
  where
    more : leb (length view) 3 ≡ false → 3 < length view
    more e = ground arith

pub parse_bool-Fits : (view : Bytes) → Fits (length view) (parse_bool view)
unfolding parse_bool
parse_bool-Fits view = ground (arith, length-drop 4 view, length-drop 5 view)

get_num_shorter :
    (view : Bytes) {num rest : Bytes} → get_num view ≡ some (num, rest) → length rest ≤ length view
unfolding get_num
get_num_shorter [] h = absurd (ground arith)
get_num_shorter (c ∷ view) {num} {rest} h = elim (Option-cases (get_num view)) [
  | inl e ↦ ground (arith, e)
  | inr ((num', rest'), e) ↦ ground (arith, e, get_num_shorter view e)
]

pub label-number : (c : ℕ) → label c ≡ number → is_number_char c ≡ true
unfolding label
label-number c h = ground arith

module _ {D : Type 0} (read_double : Bytes → D) where
  pub parse_num-Fits :
      (c : ℕ) (rest : Bytes)
      → is_number_char c ≡ true
      → Fits (suc (length rest)) (parse_num read_double (c ∷ rest))
  unfolding parse_num get_num
  parse_num-Fits c rest h = elim (Option-cases (get_num rest)) [
    | inl e ↦ ground (arith, e)
    | inr ((num, behind), e) ↦ ground (arith, e, get_num_shorter rest e)
  ]
