-- ===== src/Json/Terminates.antt =====
-- The fuel of the parser is enough: each method consumes text, and the length of the text bounds the
-- rounds of every loop.
use co_uring_web.Prelude.{
  ℕ, zero, suc, ◌≤◌, ◌<◌, Bool, true, false, [], ◌∷◌, Bytes, length, drop, ◌==◌, ◌≡◌, refl, arith,
  length-drop, Bool-cases, ◌⊎◌, inl, inr,
}
use co_uring_web.Json.{
  JsonObj, no_object, json_null, json_bool, json_string, json_array, json_map, Items, no_items,
  Entries, no_entries,
}
use co_uring_web.Json.Parsed.{Parsed, parsed, refused, out_of_fuel}
use co_uring_web.Json.Text.{parse_string, parse_bool}
use co_uring_web.Json.Number.{parse_num}
use co_uring_web.Json.Parse.{
  Label, comma, open_array, close_array, open_map, close_map, letter_n, letter_t_f, quote, colon,
  blank, number, other, label, is_null, ParseState, key_start, key_end, value_start, value_end,
  is_value_end, is_key_end, enter, push_back, assign, array_round, map_round, parse_items,
  parse_entries, parse_array, parse_map, is_blank, only_blanks, finish, parse,
}
use co_uring_web.Json.Fits.{
  Fits, Fits-weaken, Fits->>=, Fits-enter, Fits-in_state, parse_string-Fits, parse_bool-Fits,
  parse_num-Fits, label-number,
}

module _ {D : Type 0} (read_double : Bytes → D) where
  module _ (array_loop : Items D → Bool → Bytes → Parsed (Items D))
      (map_loop : Entries D → ParseState → Bytes → Bytes → Parsed (Entries D)) (n : ℕ)
      (array_fits : (vec : Items D) (b : Bool) (view : Bytes)
        → length view < n
        → Fits (length view) (array_loop vec b view))
      (map_fits : (m : Entries D) (state : ParseState) (str view : Bytes)
        → length view < n
        → Fits (length view) (map_loop m state str view)) where
    array_on :
        (vec : Items D) (b : Bool) (rest view : Bytes)
        → length rest < length view
        → length view ≤ n
        → Fits (length view) (array_loop vec b rest)
    array_on vec b rest view h l =
        Fits-weaken (length rest) (length view) (array_loop vec b rest) (omega arith)
          (array_fits vec b rest (omega arith))

    map_on :
        (m : Entries D) (state : ParseState) (str rest view : Bytes)
        → length rest < length view
        → length view ≤ n
        → Fits (length view) (map_loop m state str rest)
    map_on m state str rest view h l =
        Fits-weaken (length rest) (length view) (map_loop m state str rest) (omega arith)
          (map_fits m state str rest (omega arith))

    array_round-Fits :
        (lab : Label) (vec : Items D) (b : Bool) (c : ℕ) (rest : Bytes)
        → label c ≡ lab
        → suc (length rest) ≤ n
        → Fits
            (suc (length rest))
            (array_round read_double array_loop map_loop lab vec b (c ∷ rest))
    unfolding array_round
    array_round-Fits comma vec true c rest e l = tt
    array_round-Fits comma vec false c rest e l = array_on vec true rest (c ∷ rest) (omega arith) l
    array_round-Fits open_array vec b c rest e l =
        Fits->>= _ _ (enter (c ∷ rest) (array_loop no_items false rest)) _
          (Fits-enter _ (c ∷ rest) _ (array_on no_items false rest (c ∷ rest) (omega arith) l))
          (λ xs behind k.
            array_on (push_back vec (json_array xs)) false (drop 1 behind) (c ∷ rest)
              (omega (arith, length-drop 1 behind)) l)
    array_round-Fits close_array vec b c rest e l = omega arith
    array_round-Fits open_map vec b c rest e l =
        Fits->>= _ _ (enter (c ∷ rest) (map_loop no_entries key_start [] rest)) _
          (Fits-enter _ (c ∷ rest) _
            (map_on no_entries key_start [] rest (c ∷ rest) (omega arith) l))
          (λ m behind k. array_on (push_back vec (json_map m)) false behind (c ∷ rest) k l)
    array_round-Fits letter_n vec b c rest e l = elim (Bool-cases (is_null (c ∷ rest))) [
      | inl f ↦ rw f (
          array_on (push_back vec no_object) false (drop 3 rest) (c ∷ rest)
            (omega (arith, length-drop 3 rest)) l)
      | inr f ↦ rw f tt
    ]
    array_round-Fits letter_t_f vec b c rest e l =
        Fits->>= _ _ (parse_bool (c ∷ rest)) _ (parse_bool-Fits (c ∷ rest))
          (λ v behind k. array_on (push_back vec (json_bool v)) false behind (c ∷ rest) k l)
    array_round-Fits quote vec b c rest e l =
        Fits->>= _ _ (parse_string (c ∷ rest)) _ (parse_string-Fits (c ∷ rest))
          (λ s behind k. array_on (push_back vec (json_string s)) false behind (c ∷ rest) k l)
    array_round-Fits blank vec b c rest e l = array_on vec b rest (c ∷ rest) (omega arith) l
    array_round-Fits number vec b c rest e l =
        Fits->>= _ _ (parse_num read_double (c ∷ rest)) _
          (parse_num-Fits read_double c rest (label-number c e))
          (λ v behind k. array_on (push_back vec v) false behind (c ∷ rest) k l)
    array_round-Fits close_map vec b c rest e l = tt
    array_round-Fits colon vec b c rest e l = tt
    array_round-Fits other vec b c rest e l = tt

    map_round-Fits :
        (lab : Label) (m : Entries D) (state : ParseState) (str : Bytes) (c : ℕ) (rest : Bytes)
        → label c ≡ lab
        → suc (length rest) ≤ n
        → Fits
            (suc (length rest))
            (map_round read_double array_loop map_loop lab m state str (c ∷ rest))
    unfolding map_round
    map_round-Fits blank m state str c rest e l = map_on m state str rest (c ∷ rest) (omega arith) l
    map_round-Fits comma m state str c rest e l =
        Fits-in_state _ (is_value_end state) _
          (map_on m key_start str rest (c ∷ rest) (omega arith) l)
    map_round-Fits quote m key_start str c rest e l =
        Fits->>= _ _ (parse_string (c ∷ rest)) _ (parse_string-Fits (c ∷ rest))
          (λ s behind k. map_on m key_end s behind (c ∷ rest) k l)
    map_round-Fits quote m value_start str c rest e l =
        Fits->>= _ _ (parse_string (c ∷ rest)) _ (parse_string-Fits (c ∷ rest))
          (λ s behind k. map_on (assign str (json_string s) m) value_end [] behind (c ∷ rest) k l)
    map_round-Fits colon m state str c rest e l =
        Fits-in_state _ (is_key_end state) _
          (map_on m value_start str rest (c ∷ rest) (omega arith) l)
    map_round-Fits letter_t_f m value_start str c rest e l =
        Fits->>= _ _ (parse_bool (c ∷ rest)) _ (parse_bool-Fits (c ∷ rest))
          (λ v behind k. map_on (assign str (json_bool v) m) value_end [] behind (c ∷ rest) k l)
    map_round-Fits letter_n m value_start str c rest e l = elim (Bool-cases (is_null (c ∷ rest))) [
      | inl f ↦ rw f (
          map_on (assign str json_null m) value_end [] (drop 3 rest) (c ∷ rest)
            (omega (arith, length-drop 3 rest)) l)
      | inr f ↦ rw f tt
    ]
    map_round-Fits number m value_start str c rest e l =
        Fits->>= _ _ (parse_num read_double (c ∷ rest)) _
          (parse_num-Fits read_double c rest (label-number c e))
          (λ v behind k. map_on (assign str v m) value_end [] behind (c ∷ rest) k l)
    map_round-Fits open_array m value_start str c rest e l =
        Fits->>= _ _ (enter (c ∷ rest) (array_loop no_items false rest)) _
          (Fits-enter _ (c ∷ rest) _ (array_on no_items false rest (c ∷ rest) (omega arith) l))
          (λ xs behind k. map_on (assign str (json_array xs) m) value_end [] behind (c ∷ rest) k l)
    map_round-Fits open_map m value_start str c rest e l =
        Fits->>= _ _ (enter (c ∷ rest) (map_loop no_entries key_start [] rest)) _
          (Fits-enter _ (c ∷ rest) _
            (map_on no_entries key_start [] rest (c ∷ rest) (omega arith) l))
          (λ m' behind k. map_on (assign str (json_map m') m) value_end [] behind (c ∷ rest) k l)
    map_round-Fits close_map m state str c rest e l =
        Fits-in_state _ (is_value_end state) _ (omega arith)
    map_round-Fits _ m state str c rest e l = tt

  mutual
    unfolding parse_items

    parse_items-Fits :
        (fuel : ℕ) (vec : Items D) (b : Bool) (view : Bytes)
        → length view < fuel
        → Fits (length view) (parse_items read_double fuel vec b view)
    parse_items-Fits zero vec b view h = absurd (omega arith)
    parse_items-Fits (suc fuel) vec b [] h = tt
    parse_items-Fits (suc fuel) vec b (c ∷ rest) h =
        array_round-Fits (parse_items read_double fuel) (parse_entries read_double fuel) fuel
          (parse_items-Fits fuel) (parse_entries-Fits fuel) (label c) vec b c rest refl
          (omega arith)

    parse_entries-Fits :
        (fuel : ℕ) (m : Entries D) (state : ParseState) (str view : Bytes)
        → length view < fuel
        → Fits (length view) (parse_entries read_double fuel m state str view)
    parse_entries-Fits zero m state str view h = absurd (omega arith)
    parse_entries-Fits (suc fuel) m state str [] h = tt
    parse_entries-Fits (suc fuel) m state str (c ∷ rest) h =
        map_round-Fits (parse_items read_double fuel) (parse_entries read_double fuel) fuel
          (parse_items-Fits fuel) (parse_entries-Fits fuel) (label c) m state str c rest refl
          (omega arith)

  parse_array-Fits : (view : Bytes) → Fits (suc (length view)) (parse_array read_double view)
  unfolding parse_array
  parse_array-Fits view = Fits-enter _ view _ (
      Fits-weaken (length (drop 1 view)) _ _ (omega (arith, length-drop 1 view)) (
        parse_items-Fits (suc (length view)) no_items false (drop 1 view)
          (omega (arith, length-drop 1 view))))

  parse_map-Fits : (view : Bytes) → Fits (suc (length view)) (parse_map read_double view)
  unfolding parse_map
  parse_map-Fits view = Fits-enter _ view _ (
      Fits-weaken (length (drop 1 view)) _ _ (omega (arith, length-drop 1 view)) (
        parse_entries-Fits (suc (length view)) no_entries key_start [] (drop 1 view)
          (omega (arith, length-drop 1 view))))

  finish-Fits : (v : JsonObj D) (rest : Bytes) → Fits 1 (finish v rest)
  finish-Fits v rest = elim (Bool-cases (only_blanks rest)) [
    | inl e ↦ rw e (omega arith)
    | inr e ↦ rw e tt
  ]

  parse-Fits : (view : Bytes) → Fits 1 (parse read_double view)
  unfolding parse
  parse-Fits [] = omega arith
  parse-Fits (c ∷ rest) =
      let of_map =
        Fits->>= _ 1 (parse_map read_double (c ∷ rest)) (λ (m, behind). finish (json_map m) behind)
          (parse_map-Fits (c ∷ rest)) (λ m behind k. finish-Fits (json_map m) behind) in
      let of_array =
        Fits->>= _ 1 (parse_array read_double (c ∷ rest))
          (λ (xs, behind). finish (json_array xs) behind) (parse_array-Fits (c ∷ rest))
          (λ xs behind k. finish-Fits (json_array xs) behind) in
      elim (Bool-cases (c == b'{')) [
        | inl e ↦ rw e of_map
        | inr e ↦ rw e (elim (Bool-cases (c == b'[')) [
          | inl f ↦ rw f of_array
          | inr f ↦
              rw f (elim (Bool-cases (is_blank c)) [
                | inl g ↦ rw g (parse-Fits rest)
                | inr g ↦ rw g tt
              ])
        ])
      ]

  -- The rounds of the loops are bounded by the length of the text: `parse` returns a value, with
  -- nothing left, or throws.
  pub parse_terminates :
      (view : Bytes)
      → ((v : JsonObj D) × (parse read_double view ≡ parsed v []))
        ⊎ (parse read_double view ≡ refused)
  parse_terminates view = go (parse read_double view) refl (parse-Fits view)
    where
      go :
          (r : Parsed (JsonObj D))
          → parse read_double view ≡ r
          → Fits 1 r
          → ((v : JsonObj D) × (parse read_double view ≡ parsed v []))
            ⊎ (parse read_double view ≡ refused)
      go (parsed v []) e h = inl (v, e)
      go (parsed v (c ∷ rest)) e h = absurd (omega arith)
      go refused e h = inr e
      go out_of_fuel e h = absurd h
