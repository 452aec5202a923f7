-- ===== src/Json/RoundTrip/Rounds.antt =====
-- The rounds of the two loops over the text of a value without elements.
use co_uring_web.Prelude.{
  ℕ, zero, suc, ◌+◌, ◌/◌, ◌%◌, ◌<◌, Bool, true, false, [], ◌∷◌, ◌++◌, Bytes, length, replicate, ltb,
  if◌then◌else◌, ◌==◌, ◌≡◌, ◌⊎◌, inl, inr, refl, ap, ◌∙◌, arith, Bool-cases,
}
use co_uring_web.Prelude.Int.{ℤ, pos, negsuc}
use co_uring_web.Utils.Decimal.{digits_of, to_string}
use co_uring_web.Json.{Items, Entries}
use co_uring_web.Json.Number.{is_digit, is_number_char, write_int64}
use co_uring_web.Json.Parse.{
  Label, comma, blank, number, label, ParseState, key_start, value_end, array_round, map_round,
  parse_items, parse_entries,
}

-- What follows a value in the text: the comma before the next one, or the new line before the bracket.
abbrev pub IsSeparator : ℕ → Type 0
IsSeparator c = (c ≡ b',') ⊎ (c ≡ 10)

abbrev pub state_behind : ℕ → ParseState
state_behind c = if c == b',' then key_start else value_end

pub separator_no_number : (c : ℕ) → IsSeparator c → is_number_char c ≡ false
separator_no_number c (inl e) = rw e refl
separator_no_number c (inr e) = rw e refl

-- A number begins with a digit or a minus sign.
abbrev pub StartsNumber : Bytes → Type 0
StartsNumber text = (c : ℕ) × (more : Bytes) × (text ≡ c ∷ more) × (label c ≡ number)

label_digit : (c : ℕ) → is_digit c ≡ true → label c ≡ number
unfolding label
label_digit c h = ground arith

digits_of-StartsNumber :
    (fuel n d : ℕ) (acc : Bytes) → is_digit d ≡ true → StartsNumber (digits_of fuel n (d ∷ acc))
unfolding digits_of
digits_of-StartsNumber zero n d acc h = (d, acc, refl, label_digit d h)
digits_of-StartsNumber (suc fuel) n d acc h = elim (Bool-cases (ltb n 10)) [
  | inl e ↦ (48 + n, d ∷ acc, rw e refl, label_digit (48 + n) (ground arith))
  | inr e ↦ rw e (digits_of-StartsNumber fuel (n / 10) (48 + n % 10) (d ∷ acc) (ground arith))
]

pub write_int64-StartsNumber : (n : ℤ) → StartsNumber (write_int64 n)
unfolding to_string digits_of
write_int64-StartsNumber (pos n) = elim (Bool-cases (ltb n 10)) [
  | inl e ↦ (48 + n, [], rw e refl, label_digit (48 + n) (ground arith))
  | inr e ↦ rw e (digits_of-StartsNumber 19 (n / 10) (48 + n % 10) [] (ground arith))
]
write_int64-StartsNumber (negsuc n) = (b'-', to_string (suc n), refl, unfold label in refl)

module _ {D : Type 0} (read_double : Bytes → D) where
  -- From a place in an array the loop comes to another, with enough fuel left.
  abbrev pub ItemsReach : ℕ → Items D → Bool → Bytes → Items D → Bytes → Type 0
  ItemsReach fuel vec b view vec' view' =
      (fuel' : ℕ) × (b' : Bool) × (length view' < fuel')
      × (parse_items read_double fuel vec b view ≡ parse_items read_double fuel' vec' b' view')

  abbrev pub EntriesReach :
      ℕ → Entries D → ParseState → Bytes → Bytes → Entries D → ParseState → Bytes → Bytes → Type 0
  EntriesReach fuel m state str view m' state' str' view' =
      (fuel' : ℕ) × (length view' < fuel')
      × (parse_entries read_double fuel m state str view
          ≡ parse_entries read_double fuel' m' state' str' view')

  -- One round.
  pub items_round :
      (fuel : ℕ) (vec : Items D) (b : Bool) (c : ℕ) (rest : Bytes) (lab : Label)
      → label c ≡ lab
      → parse_items read_double (suc fuel) vec b (c ∷ rest)
        ≡ array_round read_double
            (parse_items read_double fuel)
            (parse_entries read_double fuel)
            lab
            vec
            b
            (c ∷ rest)
  unfolding parse_items
  items_round fuel vec b c rest lab e =
      ap
        (λ l.
          array_round read_double (parse_items read_double fuel) (parse_entries read_double fuel) l
            vec b (c ∷ rest))
        e

  pub entries_round :
      (fuel : ℕ) (m : Entries D) (state : ParseState) (str : Bytes) (c : ℕ) (rest : Bytes)
      (lab : Label)
      → label c ≡ lab
      → parse_entries read_double (suc fuel) m state str (c ∷ rest)
        ≡ map_round read_double
            (parse_items read_double fuel)
            (parse_entries read_double fuel)
            lab
            m
            state
            str
            (c ∷ rest)
  unfolding parse_items
  entries_round fuel m state str c rest lab e =
      ap
        (λ l.
          map_round read_double (parse_items read_double fuel) (parse_entries read_double fuel) l m
            state str (c ∷ rest))
        e

  pub items_blank :
      (fuel : ℕ) (vec : Items D) (b : Bool) (c : ℕ) (rest : Bytes)
      → label c ≡ blank
      → parse_items read_double (suc fuel) vec b (c ∷ rest)
        ≡ parse_items read_double fuel vec b rest
  unfolding array_round
  items_blank fuel vec b c rest e = items_round fuel vec b c rest blank e

  pub entries_blank :
      (fuel : ℕ) (m : Entries D) (state : ParseState) (str : Bytes) (c : ℕ) (rest : Bytes)
      → label c ≡ blank
      → parse_entries read_double (suc fuel) m state str (c ∷ rest)
        ≡ parse_entries read_double fuel m state str rest
  unfolding map_round
  entries_blank fuel m state str c rest e = entries_round fuel m state str c rest blank e

  pub items_blanks :
      (n fuel : ℕ) (vec : Items D) (b : Bool) (view : Bytes)
      → length (replicate n b' ' ++ view) < fuel
      → ItemsReach fuel vec b (replicate n b' ' ++ view) vec view
  items_blanks zero fuel vec b view l = (fuel, b, l, refl)
  items_blanks (suc n) zero vec b view l = absurd (omega arith)
  items_blanks (suc n) (suc fuel) vec b view l =
      let (fuel', b', l', e) = items_blanks n fuel vec b view (omega arith) in
      (
        fuel',
        b',
        l',
        items_blank fuel vec b b' ' (replicate n b' ' ++ view) (unfold label in refl) ∙ e,
      )

  pub entries_blanks :
      (n fuel : ℕ) (m : Entries D) (state : ParseState) (str view : Bytes)
      → length (replicate n b' ' ++ view) < fuel
      → EntriesReach fuel m state str (replicate n b' ' ++ view) m state str view
  entries_blanks zero fuel m state str view l = (fuel, l, refl)
  entries_blanks (suc n) zero m state str view l = absurd (omega arith)
  entries_blanks (suc n) (suc fuel) m state str view l =
      let (fuel', l', e) = entries_blanks n fuel m state str view (omega arith) in
      (
        fuel',
        l',
        entries_blank fuel m state str b' ' (replicate n b' ' ++ view) (unfold label in refl) ∙ e,
      )

  -- The separator behind a value.
  pub items_separator :
      (fuel : ℕ) (vec : Items D) (sep : ℕ) (rest : Bytes)
      → IsSeparator sep
      → parse_items read_double (suc fuel) vec false (sep ∷ rest)
        ≡ parse_items read_double fuel vec (sep == b',') rest
  unfolding array_round label
  items_separator fuel vec sep rest (inl e) = rw e (items_round fuel vec false b',' rest comma refl)
  items_separator fuel vec sep rest (inr e) = rw e (items_round fuel vec false 10 rest blank refl)

  pub entries_separator :
      (fuel : ℕ) (m : Entries D) (sep : ℕ) (rest : Bytes)
      → IsSeparator sep
      → parse_entries read_double (suc fuel) m value_end [] (sep ∷ rest)
        ≡ parse_entries read_double fuel m (state_behind sep) [] rest
  unfolding map_round label
  entries_separator fuel m sep rest (inl e) =
      rw e (entries_round fuel m value_end [] b',' rest comma refl)
  entries_separator fuel m sep rest (inr e) =
      rw e (entries_round fuel m value_end [] 10 rest blank refl)
