-- ===== src/Json/RoundTrip/Strings.antt =====
-- Strings: `parseString` reads what `dumpString` writes.
use co_uring_web.Prelude.{
  ℕ, zero, suc, ◌≤◌, ◌<◌, Bool, true, false, [], ◌∷◌, ◌++◌, Bytes, length, bytes_eq, ◌==◌, leb,
  ◌||◌, ◌≡◌, sym, ap, ◌∙◌, arith, length-append, append_assoc, append-nil, All,
}
use co_uring_web.Json.Parsed.{parsed}
use co_uring_web.Json.Text.{
  escape, string_loop, parse_string, parse_bool, dump_char, dump_chars, dump_string, dump_bool,
}

-- The bytes that `dumpString` writes in a form that `parseString` accepts: not the other control
-- characters.
abbrev pub is_writable : ℕ → Bool
is_writable c = leb 32 c || c == 8 || c == 9 || c == 10 || c == 12 || c == 13

abbrev pub IsText : Bytes → Type 0
IsText = All (λ c. is_writable c ≡ true)

string_loop-dump_char :
    (fuel : ℕ) (s : Bytes) (c : ℕ) (more : Bytes)
    → is_writable c ≡ true
    → 2 ≤ length more
    → string_loop (suc fuel) s (dump_char c ++ more) ≡ string_loop fuel (s ++ c ∷ []) more
unfolding string_loop escape
string_loop-dump_char fuel s c more h l = ground arith

length-dump_char : (c : ℕ) → 1 ≤ length (dump_char c)
length-dump_char c = ground arith

string_loop-dump_chars :
    (fuel : ℕ) (s view rest : Bytes)
    → length (dump_chars view ++ b'"' ∷ rest) < fuel
    → 2 ≤ length rest
    → IsText view
    → string_loop fuel s (dump_chars view ++ b'"' ∷ rest) ≡ parsed (s ++ view) rest
string_loop-dump_chars zero s view rest l k t = absurd (omega arith)
string_loop-dump_chars (suc fuel) s [] rest l k t =
    unfold string_loop in ap (λ v. parsed v rest) (sym (append-nil s))
string_loop-dump_chars (suc fuel) s (c ∷ view) rest l k (w, t) =
    let more = dump_chars view ++ b'"' ∷ rest in
    ap (string_loop (suc fuel) s) (append_assoc (dump_char c) (dump_chars view) (b'"' ∷ rest))
    ∙ string_loop-dump_char fuel s c more w
        (omega (arith, length-append (dump_chars view) (b'"' ∷ rest)))
    ∙ string_loop-dump_chars fuel (s ++ c ∷ []) view rest (shorter c l) k t
    ∙ ap (λ v. parsed v rest) (append_assoc s (c ∷ []) view)
  where
    shorter :
        (c : ℕ)
        → length ((dump_char c ++ dump_chars view) ++ b'"' ∷ rest) < suc fuel
        → length (dump_chars view ++ b'"' ∷ rest) < fuel
    shorter c h = omega (
      arith,
      length-dump_char c,
      length-append (dump_char c ++ dump_chars view) (b'"' ∷ rest),
      length-append (dump_char c) (dump_chars view),
      length-append (dump_chars view) (b'"' ∷ rest),
    )

pub parse_string-dump_string :
    (view rest : Bytes)
    → 2 ≤ length rest
    → IsText view
    → parse_string (dump_string view ++ rest) ≡ parsed view rest
unfolding parse_string
parse_string-dump_string view rest k t =
    let text = (dump_chars view ++ b'"' ∷ []) ++ rest in
    let split : text ≡ dump_chars view ++ b'"' ∷ rest =
      append_assoc (dump_chars view) (b'"' ∷ []) rest in
    let large : leb (suc (length text)) 3 ≡ false =
      ground (arith, ap length split, length-append (dump_chars view) (b'"' ∷ rest)) in
    rw large (
      ap (string_loop (suc (suc (length text))) []) split
      ∙ string_loop-dump_chars (suc (suc (length text))) [] view rest
          (omega (arith, ap length split)) k t)

pub parse_bool-dump_bool :
    (b : Bool) (c : ℕ) (rest : Bytes) → parse_bool (dump_bool b ++ c ∷ rest) ≡ parsed b (c ∷ rest)
unfolding parse_bool bytes_eq
parse_bool-dump_bool true c rest = ground arith
parse_bool-dump_bool false c rest = ground arith
