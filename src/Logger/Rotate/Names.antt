-- ===== src/Logger/Rotate/Names.antt =====
-- The names of log files: the number that `getNum` reads, and when two of them are the same.
use co_uring_web.Prelude.{
  ℕ, zero, suc, ◌+◌, ◌/◌, ◌%◌, ◌^◌, ◌<◌, Bool, true, false, not, ◌||◌, ◌&&◌, none, some, [], ◌∷◌,
  ◌++◌, Bytes, codes, All, length, drop, leb, ltb, ◌==◌, bytes_eq, bytes_eq→eq, bytes_eq_self, ◌≡◌,
  refl, sym, ap, ◌∙◌, arith, Bool-cases, inl, inr, ==_iff, drop-length-append, length-append,
  append_assoc,
}
use co_uring_web.Utils.Decimal.{digits_of, to_string, value, value-to_string}
use co_uring_web.Utils.Split.{split_to_views_char}
use co_uring_web.Utils.Split.Lacks.{Lacks, split_to_views-Lacks, split_to_views_char-three}
use co_uring_web.Logger.Rotate.{
  log_name, numbered, digit_char, leading_digits, in_range, stoi, number, to_num, last_num,
  second_num, get_num,
}

abbrev IsDigits : Bytes → Type 0
IsDigits = All (λ c. digit_char c ≡ true)

digits_of-IsDigits : (fuel n : ℕ) (acc : Bytes) → IsDigits acc → IsDigits (digits_of fuel n acc)
unfolding digits_of
digits_of-IsDigits zero n acc h = h
digits_of-IsDigits (suc fuel) n acc h = elim (Bool-cases (ltb n 10)) [
  | inl e ↦ rw e (ground arith, h)
  | inr e ↦ rw e (digits_of-IsDigits fuel (n / 10) ((48 + n % 10) ∷ acc) (ground arith, h))
]

to_string-IsDigits : (n : ℕ) → IsDigits (to_string n)
to_string-IsDigits n = unfold to_string in digits_of-IsDigits 20 n [] tt

leading_digits-IsDigits : (ds : Bytes) → IsDigits ds → leading_digits ds ≡ ds
leading_digits-IsDigits [] h = refl
leading_digits-IsDigits (c ∷ ds) (d, h) = rw (d, leading_digits-IsDigits ds h) refl

stoi-IsDigits :
    (ds : Bytes) → IsDigits ds → 0 < value ds → value ds < 2 ^ 31 → stoi ds ≡ some (value ds)
unfolding stoi
stoi-IsDigits [] h l m = absurd (omega (arith, l))
stoi-IsDigits (c ∷ ds) (d, h) l m =
    let blank : (c == b' ' || (leb 9 c && leb c 13)) ≡ false = ground (arith, d) in
    let negative : (c == b'-') ≡ false = ground (arith, d) in
    let positive : (c == b'+') ≡ false = ground (arith, d) in
    let small : leb (2 ^ 31) (value (c ∷ ds)) ≡ false = ground (arith, m) in
    rw (blank, negative)
      (rw (positive) (ap in_range (leading_digits-IsDigits (c ∷ ds) (d, h)) ∙ rw small refl))

-- A name whose first byte is no digit and none of those of ".log".
abbrev pub is_plain : Bytes → Bool
is_plain [] = false
is_plain (c ∷ base) = not (digit_char c || c == b'.' || c == b'l' || c == b'o' || c == b'g')

IsDigits-Lacks : (c : ℕ) (ds : Bytes) → digit_char c ≡ false → IsDigits ds → Lacks c ds
IsDigits-Lacks c [] p h = tt
IsDigits-Lacks c (d ∷ ds) p (e, h) = (ground (arith, p, e), IsDigits-Lacks c ds p h)

tail-Lacks :
    (c : ℕ) (base : Bytes) (n : ℕ)
    → is_plain (c ∷ base) ≡ true
    → Lacks c (codes ".log." ++ to_string n)
tail-Lacks c base n p =
    let digit : digit_char c ≡ false = ground (arith, p) in
    let dot : (b'.' == c) ≡ false = ground (arith, p) in
    (
      dot,
      (
        ground (arith, p),
        (
          ground (arith, p),
          (ground (arith, p), (dot, IsDigits-Lacks c (to_string n) digit (to_string-IsDigits n))),
        ),
      ),
    )

IsDigits-no_dot : (ds : Bytes) → IsDigits ds → Lacks b'.' ds
IsDigits-no_dot ds h = IsDigits-Lacks b'.' ds refl h

-- No numbered name is that of the log.
pub log_name-numbered :
    (file_name : Bytes) (n : ℕ) → bytes_eq (numbered file_name n) (log_name file_name) ≡ false
log_name-numbered file_name n =
    elim (Bool-cases (bytes_eq (numbered file_name n) (log_name file_name))) [
      | inr e ↦ e
      | inl e ↦ absurd (
          omega (
            arith,
            ap length (bytes_eq→eq (numbered file_name n) (log_name file_name) e),
            length-append file_name (codes ".log." ++ to_string n),
            length-append file_name (codes ".log"),
          ))
    ]

last_num-tail :
    (n : ℕ)
    → 0 < n
    → n < 2 ^ 31
    → last_num (split_to_views_char (codes ".log." ++ to_string n) b'.' none) ≡ number n
last_num-tail n l m =
    let v = value-to_string n (omega (arith, m)) in
    let digits = to_string-IsDigits n in
    ap last_num (
      split_to_views_char-three b'.' (codes "log") (to_string n) (refl, (refl, (refl, tt)))
        (IsDigits-no_dot (to_string n) digits))
    ∙ ap to_num
        (stoi-IsDigits (to_string n) digits (omega (arith, v, l)) (omega (arith, v, m)) ∙ ap some v)

-- `getNum` reads the number of a log file.
pub get_num-numbered :
    (file_name : Bytes) (n : ℕ)
    → is_plain file_name ≡ true
    → 0 < n
    → n < 2 ^ 31
    → get_num file_name (numbered file_name n) ≡ number n
unfolding get_num
get_num-numbered [] n p l m = absurd (cc p)
get_num-numbered (c ∷ base) n p l m = rw (log_name-numbered (c ∷ base) n) (
    ap second_num
      (split_to_views-Lacks c base (codes ".log." ++ to_string n) (tail-Lacks c base n p))
    ∙ last_num-tail n l m)

numbered-injective :
    (file_name : Bytes) (j k : ℕ)
    → j < 2 ^ 31
    → k < 2 ^ 31
    → numbered file_name j ≡ numbered file_name k
    → j ≡ k
numbered-injective file_name j k l m h =
    let tails : codes ".log." ++ to_string j ≡ codes ".log." ++ to_string k =
      sym (drop-length-append file_name (codes ".log." ++ to_string j))
      ∙ ap (drop (length file_name)) h
      ∙ drop-length-append file_name (codes ".log." ++ to_string k) in
    sym (value-to_string j (omega (arith, l)))
    ∙ ap (λ t. value (drop 5 t)) tails
    ∙ value-to_string k (omega (arith, m))

-- Two numbered names are the same exactly where the numbers are.
pub numbered-eq :
    (file_name : Bytes) (j k : ℕ)
    → j < 2 ^ 31
    → k < 2 ^ 31
    → bytes_eq (numbered file_name j) (numbered file_name k) ≡ (j == k)
numbered-eq file_name j k l m =
    elim (Bool-cases (bytes_eq (numbered file_name j) (numbered file_name k))) [
      | inl e ↦
          let same =
            numbered-injective file_name j k l m
              (bytes_eq→eq (numbered file_name j) (numbered file_name k) e) in
          e ∙ sym ((==_iff j k).1 same)
      | inr e ↦ elim (Bool-cases (j == k)) [
        | inr d ↦ e ∙ sym d
        | inl d ↦ absurd (
            cc (
              e,
              bytes_eq_self (numbered file_name j),
              ap (λ i. bytes_eq (numbered file_name j) (numbered file_name i)) ((==_iff j k).0 d),
            ))
      ]
    ]

pub numbered-log_name :
    (file_name : Bytes) (n : ℕ) → bytes_eq (log_name file_name) (numbered file_name n) ≡ false
numbered-log_name file_name n =
    elim (Bool-cases (bytes_eq (log_name file_name) (numbered file_name n))) [
      | inr e ↦ e
      | inl e ↦
          let same = bytes_eq→eq (log_name file_name) (numbered file_name n) e in
          absurd (
            cc (
              log_name-numbered file_name n,
              bytes_eq_self (log_name file_name),
              ap (λ t. bytes_eq t (log_name file_name)) same,
            ))
    ]

-- Where the log goes.
pub log_name-first : (file_name : Bytes) → log_name file_name ++ codes ".1" ≡ numbered file_name 1
unfolding to_string digits_of
log_name-first file_name = append_assoc file_name (codes ".log") (codes ".1")
