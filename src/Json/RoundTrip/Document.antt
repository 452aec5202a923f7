-- ===== src/Json/RoundTrip/Document.antt =====
-- The round trip of a whole document.
use co_uring_web.Prelude.{
  ℕ, suc, ◌≤◌, false, [], ◌∷◌, ◌++◌, Bytes, length, leb, ◌≡◌, refl, ap, arith, length-append,
}
use co_uring_web.Json.{
  JsonObj, json_array, json_map, Items, no_items, item, Entries, no_entries, entry,
}
use co_uring_web.Json.Parsed.{parsed}
use co_uring_web.Json.Parse.{
  key_start, parse_items, parse_entries, parse_array, parse_map, only_blanks, parse,
}
use co_uring_web.Json.Dump.{dumped, or_fault, new_line, dump}
use co_uring_web.Json.RoundTrip.Plain.{IsPlain, text_value, text_items, text_entries, dump_value-eq}
use co_uring_web.Json.RoundTrip.Values.{items_read, entries_read}
use co_uring_web.Json.RoundTrip.Layout.{items_empty}

-- What `dump` takes.
abbrev pub IsDocument : {D : Type 0} → JsonObj D → Type 0
IsDocument (json_array xs) = Unit
IsDocument (json_map m) = Unit
IsDocument _ = ⊥

module _ {D : Type 0} (read_double : Bytes → D) (write_double : D → Bytes) (indent : ℕ) where
  dump-eq :
      (v : JsonObj D)
      → IsDocument v
      → IsPlain v
      → dump write_double v indent ≡ dumped (text_value write_double indent 0 v)
  unfolding dump
  dump-eq (json_array xs) d p = ap or_fault (dump_value-eq write_double indent 0 (json_array xs) p)
  dump-eq (json_map m) d p = ap or_fault (dump_value-eq write_double indent 0 (json_map m) p)
  dump-eq _ d p = absurd d

  parse_of_array :
      (inner : Bytes) (xs : Items D)
      → 1 ≤ length inner
      → parse_items read_double (suc (suc (length inner))) no_items false inner ≡ parsed xs []
      → parse read_double (b'[' ∷ inner) ≡ parsed (json_array xs) []
  unfolding parse parse_array only_blanks
  parse_of_array inner xs l e =
      let long : leb (suc (length inner)) 1 ≡ false = ground arith in rw long (rw e refl)

  parse_of_map :
      (inner : Bytes) (m : Entries D)
      → 1 ≤ length inner
      → parse_entries read_double (suc (suc (length inner))) no_entries key_start [] inner
        ≡ parsed m []
      → parse read_double (b'{' ∷ inner) ≡ parsed (json_map m) []
  unfolding parse parse_map only_blanks
  parse_of_map inner m l e =
      let long : leb (suc (length inner)) 1 ≡ false = ground arith in rw long (rw e refl)

  parse-text_value :
      (v : JsonObj D)
      → IsDocument v
      → IsPlain v
      → parse read_double (text_value write_double indent 0 v) ≡ parsed v []
  unfolding text_value IsPlain
  parse-text_value (json_array no_items) d p =
      parse_of_array (b']' ∷ []) no_items (omega arith) (items_empty read_double _ [] (omega arith))
  parse-text_value (json_array (item x xs)) d p =
      let lines = text_items write_double indent 1 (item x xs) in
      let inner = lines ++ (new_line indent 0 ++ b']' ∷ []) in
      parse_of_array inner (item x xs)
        (omega (arith, length-append lines (new_line indent 0 ++ b']' ∷ [])))
        (items_read read_double write_double indent (item x xs) 1 0 (suc (suc (length inner)))
          no_items false [] tt p (omega arith))
  parse-text_value (json_map no_entries) d p = absurd p.0
  parse-text_value (json_map (entry k v m)) d (full, (sorted, p)) =
      let lines = text_entries write_double indent 1 (entry k v m) in
      let inner = lines ++ (new_line indent 0 ++ b'}' ∷ []) in
      parse_of_map inner (entry k v m)
        (omega (arith, length-append lines (new_line indent 0 ++ b'}' ∷ [])))
        (entries_read read_double write_double indent (entry k v m) 1 0 (suc (suc (length inner)))
          no_entries [] [] tt sorted p (omega arith))
  parse-text_value _ d p = absurd d

  -- `dump` writes a text for every plain array and map, and `parse` reads the same value from it, at any
  -- indent. Plain: see IsPlain.
  pub parse-dump :
      (v : JsonObj D)
      → IsDocument v
      → IsPlain v
      → (text : Bytes) × (dump write_double v indent ≡ dumped text)
        × (parse read_double text ≡ parsed v [])
  parse-dump v d p = (text_value write_double indent 0 v, dump-eq v d p, parse-text_value v d p)
