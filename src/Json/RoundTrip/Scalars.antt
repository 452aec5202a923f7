-- ===== src/Json/RoundTrip/Scalars.antt =====
-- A value without elements, in an array and in a map.
use co_uring_web.Prelude.{
  ℕ, zero, suc, ◌≤◌, ◌<◌, Bool, true, false, [], ◌∷◌, ◌++◌, Bytes, codes, length, bytes_eq, leb,
  ◌==◌, ◌≡◌, refl, ◌∙◌, arith, length-append,
}
use co_uring_web.Prelude.Int.{ℤ}
use co_uring_web.Json.{json_null, json_bool, json_string, json_integer, Items, Entries}
use co_uring_web.Json.Text.{dump_string, dump_bool}
use co_uring_web.Json.Number.{write_int64}
use co_uring_web.Json.Parse.{
  letter_n, letter_t_f, quote, number, label, key_start, key_end, value_start, value_end, push_back,
  assign, array_round, map_round, parse_items, parse_entries,
}
use co_uring_web.Json.RoundTrip.Strings.{IsText, parse_string-dump_string, parse_bool-dump_bool}
use co_uring_web.Json.RoundTrip.Numbers.{IsInt64, parse_num-write_int64}
use co_uring_web.Json.RoundTrip.Rounds.{
  IsSeparator, state_behind, separator_no_number, write_int64-StartsNumber, ItemsReach,
  EntriesReach, items_round, entries_round, items_separator, entries_separator,
}

module _ {D : Type 0} (read_double : Bytes → D) where
  pub ItemsReach-separator :
      (fuel : ℕ) (vec : Items D) (sep : ℕ) (rest : Bytes)
      → suc (length rest) < fuel
      → IsSeparator sep
      → ItemsReach read_double fuel vec false (sep ∷ rest) vec rest
  ItemsReach-separator zero vec sep rest l s = absurd (omega arith)
  ItemsReach-separator (suc fuel) vec sep rest l s =
      (fuel, sep == b',', omega arith, items_separator read_double fuel vec sep rest s)

  pub EntriesReach-separator :
      (fuel : ℕ) (m : Entries D) (sep : ℕ) (rest : Bytes)
      → suc (length rest) < fuel
      → IsSeparator sep
      → EntriesReach read_double fuel m value_end [] (sep ∷ rest) m (state_behind sep) [] rest
  EntriesReach-separator zero m sep rest l s = absurd (omega arith)
  EntriesReach-separator (suc fuel) m sep rest l s =
      (fuel, omega arith, entries_separator read_double fuel m sep rest s)

  -- A first round that reads the value, and the separator behind it.
  pub items_value :
      (fuel : ℕ) (vec vec' : Items D) (b : Bool) (text : Bytes) (sep : ℕ) (rest : Bytes)
      → length (text ++ sep ∷ rest) < fuel
      → 1 ≤ length text
      → IsSeparator sep
      → ((f : ℕ)
          → fuel ≡ suc f
          → parse_items read_double (suc f) vec b (text ++ sep ∷ rest)
            ≡ parse_items read_double f vec' false (sep ∷ rest))
      → ItemsReach read_double fuel vec b (text ++ sep ∷ rest) vec' rest
  items_value zero vec vec' b text sep rest l k s e = absurd (omega arith)
  items_value (suc fuel) vec vec' b text sep rest l k s e =
      let (fuel', b', l', h) =
        ItemsReach-separator fuel vec' sep rest (omega (arith, length-append text (sep ∷ rest)))
          s in
      (fuel', b', l', e fuel refl ∙ h)

  pub entries_value :
      (fuel : ℕ) (m m' : Entries D) (str text : Bytes) (sep : ℕ) (rest : Bytes)
      → length (text ++ sep ∷ rest) < fuel
      → 1 ≤ length text
      → IsSeparator sep
      → ((f : ℕ)
          → fuel ≡ suc f
          → parse_entries read_double (suc f) m value_start str (text ++ sep ∷ rest)
            ≡ parse_entries read_double f m' value_end [] (sep ∷ rest))
      → EntriesReach read_double fuel m value_start str
          (text ++ sep ∷ rest)
          m'
          (state_behind sep)
          []
          rest
  entries_value zero m m' str text sep rest l k s e = absurd (omega arith)
  entries_value (suc fuel) m m' str text sep rest l k s e =
      let (fuel', l', h) =
        EntriesReach-separator fuel m' sep rest (omega (arith, length-append text (sep ∷ rest)))
          s in
      (fuel', l', e fuel refl ∙ h)

  pub items_bool :
      (fuel : ℕ) (vec : Items D) (b v : Bool) (sep : ℕ) (rest : Bytes)
      → parse_items read_double (suc fuel) vec b (dump_bool v ++ sep ∷ rest)
        ≡ parse_items read_double fuel (push_back vec (json_bool v)) false (sep ∷ rest)
  unfolding array_round label
  items_bool fuel vec b true sep rest =
      items_round read_double fuel vec b b't' (codes "rue" ++ sep ∷ rest) letter_t_f refl
      ∙ rw (parse_bool-dump_bool true sep rest) refl
  items_bool fuel vec b false sep rest =
      items_round read_double fuel vec b b'f' (codes "alse" ++ sep ∷ rest) letter_t_f refl
      ∙ rw (parse_bool-dump_bool false sep rest) refl

  pub entries_bool :
      (fuel : ℕ) (m : Entries D) (str : Bytes) (v : Bool) (sep : ℕ) (rest : Bytes)
      → parse_entries read_double (suc fuel) m value_start str (dump_bool v ++ sep ∷ rest)
        ≡ parse_entries read_double fuel (assign str (json_bool v) m) value_end [] (sep ∷ rest)
  unfolding map_round label
  entries_bool fuel m str true sep rest =
      entries_round read_double fuel m value_start str b't' (codes "rue" ++ sep ∷ rest) letter_t_f
        refl
      ∙ rw (parse_bool-dump_bool true sep rest) refl
  entries_bool fuel m str false sep rest =
      entries_round read_double fuel m value_start str b'f' (codes "alse" ++ sep ∷ rest) letter_t_f
        refl
      ∙ rw (parse_bool-dump_bool false sep rest) refl

  pub entries_null :
      (fuel : ℕ) (m : Entries D) (str : Bytes) (sep : ℕ) (rest : Bytes)
      → parse_entries read_double (suc fuel) m value_start str (codes "null" ++ sep ∷ rest)
        ≡ parse_entries read_double fuel (assign str json_null m) value_end [] (sep ∷ rest)
  unfolding map_round label bytes_eq
  entries_null fuel m str sep rest =
      let long : leb 5 (length (codes "null" ++ sep ∷ rest)) ≡ true = ground arith in
      entries_round read_double fuel m value_start str b'n' (codes "ull" ++ sep ∷ rest) letter_n
        refl
      ∙ rw long refl

  pub items_string :
      (fuel : ℕ) (vec : Items D) (b : Bool) (s : Bytes) (sep : ℕ) (rest : Bytes)
      → IsText s
      → 1 ≤ length rest
      → parse_items read_double (suc fuel) vec b (dump_string s ++ sep ∷ rest)
        ≡ parse_items read_double fuel (push_back vec (json_string s)) false (sep ∷ rest)
  unfolding array_round label
  items_string fuel vec b s sep rest t l =
      items_round read_double fuel vec b b'"' _ quote refl
      ∙ rw (parse_string-dump_string s (sep ∷ rest) (omega arith) t) refl

  pub entries_string :
      (fuel : ℕ) (m : Entries D) (str s : Bytes) (sep : ℕ) (rest : Bytes)
      → IsText s
      → 1 ≤ length rest
      → parse_entries read_double (suc fuel) m value_start str (dump_string s ++ sep ∷ rest)
        ≡ parse_entries read_double fuel (assign str (json_string s) m) value_end [] (sep ∷ rest)
  unfolding map_round label
  entries_string fuel m str s sep rest t l =
      entries_round read_double fuel m value_start str b'"' _ quote refl
      ∙ rw (parse_string-dump_string s (sep ∷ rest) (omega arith) t) refl

  -- A key, from the quote on.
  pub entries_key :
      (fuel : ℕ) (m : Entries D) (str k rest : Bytes)
      → IsText k
      → 2 ≤ length rest
      → parse_entries read_double (suc fuel) m key_start str (dump_string k ++ rest)
        ≡ parse_entries read_double fuel m key_end k rest
  unfolding map_round label
  entries_key fuel m str k rest t l =
      entries_round read_double fuel m key_start str b'"' _ quote refl
      ∙ rw (parse_string-dump_string k rest l t) refl

  pub items_integer :
      (fuel : ℕ) (vec : Items D) (b : Bool) (n : ℤ) (sep : ℕ) (rest : Bytes)
      → IsInt64 n
      → IsSeparator sep
      → parse_items read_double (suc fuel) vec b (write_int64 n ++ sep ∷ rest)
        ≡ parse_items read_double fuel (push_back vec (json_integer n)) false (sep ∷ rest)
  unfolding array_round
  items_integer fuel vec b n sep rest i s =
      let (c, more, e, lab) = write_int64-StartsNumber n in
      let read = parse_num-write_int64 read_double n sep rest i (separator_no_number sep s) in
      rw e (
        items_round read_double fuel vec b c (more ++ sep ∷ rest) number lab
        ∙ rw (rw e at read) refl)

  pub entries_integer :
      (fuel : ℕ) (m : Entries D) (str : Bytes) (n : ℤ) (sep : ℕ) (rest : Bytes)
      → IsInt64 n
      → IsSeparator sep
      → parse_entries read_double (suc fuel) m value_start str (write_int64 n ++ sep ∷ rest)
        ≡ parse_entries read_double fuel (assign str (json_integer n) m) value_end [] (sep ∷ rest)
  unfolding map_round
  entries_integer fuel m str n sep rest i s =
      let (c, more, e, lab) = write_int64-StartsNumber n in
      let read = parse_num-write_int64 read_double n sep rest i (separator_no_number sep s) in
      rw e (
        entries_round read_double fuel m value_start str c (more ++ sep ∷ rest) number lab
        ∙ rw (rw e at read) refl)
