-- ===== src/Json/Parse.antt =====
-- `parse`, `parseArray` and `parseMap` of src/json.cpp. The loops of the last two call each other; they
-- run on fuel, of which the text's length is enough. The line that `parse` prints is left out.
use co_uring_web.Prelude.{
  ℕ, zero, suc, Bool, true, false, [], ◌∷◌, Bytes, codes, length, take, drop, bytes_eq, ◌==◌, leb,
  ◌&&◌, ◌||◌, if◌then◌else◌,
}
use co_uring_web.Prelude.Keys.{bytes_lt}
use co_uring_web.Json.{
  JsonObj, no_object, json_null, json_bool, json_string, json_array, json_map, Items, no_items,
  item, Entries, no_entries, entry,
}
use co_uring_web.Json.Parsed.{Parsed, parsed, refused, out_of_fuel, ◌>>=◌}
use co_uring_web.Json.Text.{parse_string, parse_bool}
use co_uring_web.Json.Number.{is_digit, parse_num}

-- The labels of the two switches over a character. Each switch has a few that the other leaves to its
-- `default`.
pub data Label : Type 0 where
  comma open_array close_array open_map close_map letter_n letter_t_f quote colon blank number
        other :
      Label

abbrev pub is_blank : ℕ → Bool
is_blank c = c == b' ' || c == 13 || c == 9 || c == 10

unfoldable pub label : ℕ → Label
label c =
    if is_blank c
    then blank
    else if c == b','
    then comma
    else if c == b'['
    then open_array
    else if c == b']'
    then close_array
    else if c == b'{'
    then open_map
    else if c == b'}'
    then close_map
    else if c == b'n'
    then letter_n
    else if c == b't' || c == b'f'
    then letter_t_f
    else if c == b'"'
    then quote
    else if c == b':'
    then colon
    else if c == b'-' || is_digit c
    then number
    else other

-- `enum parseState`
pub data ParseState : Type 0 where
  key_start key_end value_start value_end : ParseState

abbrev pub is_value_start : ParseState → Bool
is_value_start value_start = true
is_value_start _ = false

abbrev pub is_value_end : ParseState → Bool
is_value_end value_end = true
is_value_end _ = false

abbrev pub is_key_end : ParseState → Bool
is_key_end key_end = true
is_key_end _ = false

-- `startIndex + 4 < view.size() && string_view(&view[startIndex], 4) == "null"`
abbrev pub is_null : Bytes → Bool
is_null view = leb 5 (length view) && bytes_eq (take 4 view) (codes "null")

-- The test at the start of `parseArray` and of `parseMap`, for which `inner` is what follows.
abbrev pub enter {ℓ} : {A : Type ℓ} → Bytes → Parsed A → Parsed A
enter view inner = if leb (length view) 1 then refused else inner

-- `if (state != valueStart) throw`, before what the case does.
abbrev pub in_state {ℓ} : {A : Type ℓ} → Bool → Parsed A → Parsed A
in_state b inner = if b then inner else refused

module _ {D : Type 0} where
  -- `vec.push_back`
  abbrev pub push_back : Items D → JsonObj D → Items D
  push_back no_items v = item v no_items
  push_back (item w vec) v = item w (push_back vec v)

  -- `insert_or_assign` of the std::map.
  abbrev pub assign : Bytes → JsonObj D → Entries D → Entries D
  assign k v no_entries = entry k v no_entries
  assign k v (entry j w m) =
      if bytes_lt k j
      then entry k v (entry j w m)
      else if bytes_eq j k
      then entry j v m
      else entry j w (assign k v m)

-- The loop behind the value: only blanks may follow.
unfoldable pub only_blanks : Bytes → Bool
only_blanks [] = true
only_blanks (c ∷ rest) = let later = only_blanks rest in if is_blank c then later else false

abbrev pub finish {ℓ} : {A : Type ℓ} → A → Bytes → Parsed A
finish v rest = if only_blanks rest then parsed v [] else refused

module _ {D : Type 0} (read_double : Bytes → D) where
  module _ (array_loop : Items D → Bool → Bytes → Parsed (Items D))
      (map_loop : Entries D → ParseState → Bytes → Bytes → Parsed (Entries D)) where
    -- One round of the loop of `parseArray`, with `vec` and `endByComma`, at the label of the first
    -- character of `view`. The loops go on as the two parameters.
    unfoldable pub array_round : Label → Items D → Bool → Bytes → Parsed (Items D)
    array_round comma vec end_by_comma view =
        if end_by_comma then refused else array_loop vec true (drop 1 view)
    array_round open_array vec end_by_comma view =
        enter view (array_loop no_items false (drop 1 view)) >>= λ (xs, behind).
        array_loop (push_back vec (json_array xs)) false (drop 1 behind)
    array_round close_array vec end_by_comma view = parsed vec (drop 1 view)
    array_round open_map vec end_by_comma view =
        enter view (map_loop no_entries key_start [] (drop 1 view)) >>= λ (m, behind).
        array_loop (push_back vec (json_map m)) false behind
    array_round letter_n vec end_by_comma view =
        if is_null view then array_loop (push_back vec no_object) false (drop 4 view) else refused
    array_round letter_t_f vec end_by_comma view =
        parse_bool view >>= λ (b, behind). array_loop (push_back vec (json_bool b)) false behind
    array_round quote vec end_by_comma view =
        parse_string view >>= λ (s, behind). array_loop (push_back vec (json_string s)) false behind
    array_round blank vec end_by_comma view = array_loop vec end_by_comma (drop 1 view)
    array_round number vec end_by_comma view =
        parse_num read_double view >>= λ (v, behind). array_loop (push_back vec v) false behind
    array_round _ vec end_by_comma view = refused

    -- One round of the loop of `parseMap`, with `res->data`, `state` and `str`.
    unfoldable pub map_round : Label → Entries D → ParseState → Bytes → Bytes → Parsed (Entries D)
    map_round blank m state str view = map_loop m state str (drop 1 view)
    map_round comma m state str view =
        in_state (is_value_end state) (map_loop m key_start str (drop 1 view))
    map_round quote m key_start str view =
        parse_string view >>= λ (s, behind). map_loop m key_end s behind
    map_round quote m value_start str view = parse_string view >>= λ (s, behind).
        map_loop (assign str (json_string s) m) value_end [] behind
    map_round colon m state str view =
        in_state (is_key_end state) (map_loop m value_start str (drop 1 view))
    map_round letter_t_f m value_start str view =
        parse_bool view >>= λ (b, behind). map_loop (assign str (json_bool b) m) value_end [] behind
    map_round letter_n m value_start str view =
        if is_null view
        then map_loop (assign str json_null m) value_end [] (drop 4 view)
        else refused
    map_round number m value_start str view =
        parse_num read_double view >>= λ (v, behind). map_loop (assign str v m) value_end [] behind
    map_round open_array m value_start str view =
        enter view (array_loop no_items false (drop 1 view)) >>= λ (xs, behind).
        map_loop (assign str (json_array xs) m) value_end [] behind
    map_round open_map m value_start str view =
        enter view (map_loop no_entries key_start [] (drop 1 view)) >>= λ (n, behind).
        map_loop (assign str (json_map n) m) value_end [] behind
    map_round close_map m state str view = in_state (is_value_end state) (parsed m (drop 1 view))
    map_round _ m state str view = refused

  unfoldable mutual
    pub parse_items : ℕ → Items D → Bool → Bytes → Parsed (Items D)
    parse_items zero vec end_by_comma view = out_of_fuel
    parse_items (suc fuel) vec end_by_comma [] = refused
    parse_items (suc fuel) vec end_by_comma (c ∷ rest) =
        array_round (parse_items fuel) (parse_entries fuel) (label c) vec end_by_comma (c ∷ rest)

    pub parse_entries : ℕ → Entries D → ParseState → Bytes → Bytes → Parsed (Entries D)
    parse_entries zero m state str view = out_of_fuel
    parse_entries (suc fuel) m state str [] = refused
    parse_entries (suc fuel) m state str (c ∷ rest) =
        map_round (parse_items fuel) (parse_entries fuel) (label c) m state str (c ∷ rest)

  unfoldable pub parse_array : Bytes → Parsed (Items D)
  parse_array view = enter view (parse_items (suc (length view)) no_items false (drop 1 view))

  unfoldable pub parse_map : Bytes → Parsed (Entries D)
  parse_map view =
      enter view (parse_entries (suc (length view)) no_entries key_start [] (drop 1 view))

  unfoldable pub parse : Bytes → Parsed (JsonObj D)
  parse [] = parsed json_null []
  parse (c ∷ rest) =
      let later = parse rest in
      if c == b'{'
      then (parse_map (c ∷ rest) >>= λ (m, behind). finish (json_map m) behind)
      else if c == b'['
      then (parse_array (c ∷ rest) >>= λ (xs, behind). finish (json_array xs) behind)
      else if is_blank c
      then later
      else refused
