-- ===== src/Json/RoundTrip/Values.antt =====
-- What `dump` writes of a plain value, `parse` reads back as that value.
use co_uring_web.Prelude.{
  ℕ, zero, suc, ◌*◌, ◌≤◌, ◌<◌, Bool, false, [], ◌∷◌, ◌++◌, Bytes, codes, length, replicate, ◌≡◌,
  inl, inr, refl, ap, sym, ◌∙◌, arith, length-append,
}
use co_uring_web.Prelude.Int.{ℤ}
use co_uring_web.Json.{
  JsonObj, no_object, json_null, json_bool, json_string, json_integer, json_double, json_array,
  json_map, Items, no_items, item, Entries, no_entries, entry,
}
use co_uring_web.Json.Parsed.{parsed}
use co_uring_web.Json.Text.{dump_string, dump_bool}
use co_uring_web.Json.Number.{write_int64}
use co_uring_web.Json.Parse.{key_start, value_start, push_back, assign, parse_items, parse_entries}
use co_uring_web.Json.RoundTrip.Rounds.{
  IsSeparator, state_behind, write_int64-StartsNumber, ItemsReach, EntriesReach,
}
use co_uring_web.Json.RoundTrip.Scalars.{
  items_value, entries_value, items_bool, entries_bool, entries_null, items_string, entries_string,
  items_integer, entries_integer,
}
use co_uring_web.Json.RoundTrip.Layout.{
  regroup_end, regroup_item, regroup_entry, entries_field, items_new_line, items_close,
  entries_close, items_empty, items_array, items_map, entries_array, entries_map,
}
use co_uring_web.Json.Dump.{new_line}
use co_uring_web.Json.RoundTrip.Plain.{
  IsSorted, IsFull, IsElement, IsPlain, IsPlainItems, IsPlainEntries, append, append_entries,
  append-push_back, append-no_items, append_entries-no_entries, append_entries-assign, text_value,
  text_items, text_entries,
}

length-dump_bool : (v : Bool) → 1 ≤ length (dump_bool v)
length-dump_bool v = ground arith

length-write_int64 : (n : ℤ) → 1 ≤ length (write_int64 n)
length-write_int64 n = let (c, more, e, lab) = write_int64-StartsNumber n in rw e (omega arith)

abbrev pub HasItems : {D : Type 0} → Items D → Type 0
HasItems no_items = ⊥
HasItems (item _ _) = Unit

module _ {D : Type 0} (read_double : Bytes → D) (write_double : D → Bytes) (indent : ℕ) where
  -- The text behind the opening bracket.
  abbrev pub array_end : ℕ → Bytes → Bytes
  array_end depth tail = 10 ∷ (replicate (depth * indent) b' ' ++ b']' ∷ tail)

  abbrev pub map_end : ℕ → Bytes → Bytes
  map_end depth tail = 10 ∷ (replicate (depth * indent) b' ' ++ b'}' ∷ tail)

  mutual
    unfolding text_value IsPlain

    value_in_items :
        (v : JsonObj D) (depth fuel : ℕ) (vec : Items D) (b : Bool) (sep : ℕ) (rest : Bytes)
        → IsPlain v
        → IsElement v
        → length (text_value write_double indent depth v ++ sep ∷ rest) < fuel
        → 1 ≤ length rest
        → IsSeparator sep
        → ItemsReach read_double fuel vec b
            (text_value write_double indent depth v ++ sep ∷ rest)
            (push_back vec v)
            rest
    value_in_items no_object depth fuel vec b sep rest p e l k s = absurd p
    value_in_items json_null depth fuel vec b sep rest p e l k s = absurd e
    value_in_items (json_double d) depth fuel vec b sep rest p e l k s = absurd p
    value_in_items (json_bool v) depth fuel vec b sep rest p e l k s =
        items_value read_double fuel vec (push_back vec (json_bool v)) b (dump_bool v) sep rest l
          (length-dump_bool v) s (λ f q. items_bool read_double f vec b v sep rest)
    value_in_items (json_string t) depth fuel vec b sep rest p e l k s =
        items_value read_double fuel vec (push_back vec (json_string t)) b (dump_string t) sep rest
          l (omega arith) s (λ f q. items_string read_double f vec b t sep rest p k)
    value_in_items (json_integer n) depth fuel vec b sep rest p e l k s =
        items_value read_double fuel vec (push_back vec (json_integer n)) b (write_int64 n) sep rest
          l (length-write_int64 n) s (λ f q. items_integer read_double f vec b n sep rest p s)
    value_in_items (json_array xs) depth zero vec b sep rest p e l k s = absurd (omega arith)
    value_in_items (json_array no_items) depth (suc fuel) vec b sep rest p e l k s = (
      fuel,
      false,
      omega arith,
      items_array read_double fuel vec b (b']' ∷ sep ∷ rest) no_items (sep ∷ rest) (omega arith)
          (items_empty read_double fuel (sep ∷ rest) (omega arith)),
    )
    value_in_items (json_array (item x xs)) depth (suc fuel) vec b sep rest p e l k s =
        let lines = text_items write_double indent (suc depth) (item x xs) in
        let inner : Bytes = (lines ++ (new_line indent depth ++ b']' ∷ [])) ++ sep ∷ rest in
        let whole : inner ≡ lines ++ array_end depth (sep ∷ rest) =
          regroup_end lines (new_line indent depth) b']' (sep ∷ rest) in
        let sizes = length-append (lines ++ (new_line indent depth ++ b']' ∷ [])) (sep ∷ rest) in
        let read =
          ap (parse_items read_double fuel no_items false) whole
          ∙ items_read (item x xs) (suc depth) depth fuel no_items false (sep ∷ rest) tt p
              (omega (arith, ap length whole)) in
        (
          fuel,
          false,
          omega (arith, sizes),
          items_array read_double fuel vec b inner (item x xs) (sep ∷ rest) (omega (arith, sizes))
              read,
        )
    value_in_items (json_map no_entries) depth fuel vec b sep rest p e l k s = absurd p.0
    value_in_items (json_map (entry key v m)) depth fuel vec b sep rest (full, (sorted, p)) e l k
          s =
        let lines = text_entries write_double indent (suc depth) (entry key v m) in
        let text : Bytes = b'{' ∷ (lines ++ (new_line indent depth ++ b'}' ∷ [])) in
        let whole = regroup_end lines (new_line indent depth) b'}' (sep ∷ rest) in
        items_value read_double fuel vec (push_back vec (json_map (entry key v m))) b text sep rest
          l (omega arith) s
          (λ f q.
            items_map read_double f vec b
              ((lines ++ (new_line indent depth ++ b'}' ∷ [])) ++ sep ∷ rest) (entry key v m)
              (sep ∷ rest)
              (omega
                (arith, length-append (lines ++ (new_line indent depth ++ b'}' ∷ [])) (sep ∷ rest)))
              (ap (parse_entries read_double f no_entries key_start []) whole
                ∙ entries_read (entry key v m) (suc depth) depth f no_entries [] (sep ∷ rest) tt
                    sorted p (omega (arith, q, l, ap length whole))))

    value_in_entries :
        (v : JsonObj D) (depth fuel : ℕ) (acc : Entries D) (str : Bytes) (sep : ℕ) (rest : Bytes)
        → IsPlain v
        → length (text_value write_double indent depth v ++ sep ∷ rest) < fuel
        → 1 ≤ length rest
        → IsSeparator sep
        → EntriesReach read_double fuel acc value_start str
            (text_value write_double indent depth v ++ sep ∷ rest)
            (assign str v acc)
            (state_behind sep)
            []
            rest
    value_in_entries no_object depth fuel acc str sep rest p l k s = absurd p
    value_in_entries json_null depth fuel acc str sep rest p l k s =
        entries_value read_double fuel acc (assign str json_null acc) str (codes "null") sep rest l
          (omega arith) s (λ f q. entries_null read_double f acc str sep rest)
    value_in_entries (json_double d) depth fuel acc str sep rest p l k s = absurd p
    value_in_entries (json_bool v) depth fuel acc str sep rest p l k s =
        entries_value read_double fuel acc (assign str (json_bool v) acc) str (dump_bool v) sep rest
          l (length-dump_bool v) s (λ f q. entries_bool read_double f acc str v sep rest)
    value_in_entries (json_string t) depth fuel acc str sep rest p l k s =
        entries_value read_double fuel acc (assign str (json_string t) acc) str (dump_string t) sep
          rest l (omega arith) s (λ f q. entries_string read_double f acc str t sep rest p k)
    value_in_entries (json_integer n) depth fuel acc str sep rest p l k s =
        entries_value read_double fuel acc (assign str (json_integer n) acc) str (write_int64 n) sep
          rest l (length-write_int64 n) s
          (λ f q. entries_integer read_double f acc str n sep rest p s)
    value_in_entries (json_array no_items) depth fuel acc str sep rest p l k s =
        entries_value read_double fuel acc (assign str (json_array no_items) acc) str (codes "[]")
          sep rest l (omega arith) s
          (λ f q.
            entries_array read_double f acc str (b']' ∷ sep ∷ rest) no_items (sep ∷ rest)
              (omega arith) (items_empty read_double f (sep ∷ rest) (omega (arith, q, l))))
    value_in_entries (json_array (item x xs)) depth fuel acc str sep rest p l k s =
        let lines = text_items write_double indent (suc depth) (item x xs) in
        let text : Bytes = b'[' ∷ (lines ++ (new_line indent depth ++ b']' ∷ [])) in
        let whole = regroup_end lines (new_line indent depth) b']' (sep ∷ rest) in
        entries_value read_double fuel acc (assign str (json_array (item x xs)) acc) str text sep
          rest l (omega arith) s
          (λ f q.
            entries_array read_double f acc str
              ((lines ++ (new_line indent depth ++ b']' ∷ [])) ++ sep ∷ rest) (item x xs)
              (sep ∷ rest)
              (omega
                (arith, length-append (lines ++ (new_line indent depth ++ b']' ∷ [])) (sep ∷ rest)))
              (ap (parse_items read_double f no_items false) whole
                ∙ items_read (item x xs) (suc depth) depth f no_items false (sep ∷ rest) tt p
                    (omega (arith, q, l, ap length whole))))
    value_in_entries (json_map no_entries) depth fuel acc str sep rest p l k s = absurd p.0
    value_in_entries (json_map (entry key v m)) depth fuel acc str sep rest (full, (sorted, p)) l k
          s =
        let lines = text_entries write_double indent (suc depth) (entry key v m) in
        let text : Bytes = b'{' ∷ (lines ++ (new_line indent depth ++ b'}' ∷ [])) in
        let whole = regroup_end lines (new_line indent depth) b'}' (sep ∷ rest) in
        entries_value read_double fuel acc (assign str (json_map (entry key v m)) acc) str text sep
          rest l (omega arith) s
          (λ f q.
            entries_map read_double f acc str
              ((lines ++ (new_line indent depth ++ b'}' ∷ [])) ++ sep ∷ rest) (entry key v m)
              (sep ∷ rest)
              (omega
                (arith, length-append (lines ++ (new_line indent depth ++ b'}' ∷ [])) (sep ∷ rest)))
              (ap (parse_entries read_double f no_entries key_start []) whole
                ∙ entries_read (entry key v m) (suc depth) depth f no_entries [] (sep ∷ rest) tt
                    sorted p (omega (arith, q, l, ap length whole))))

    pub items_read :
        (xs : Items D) (depth depth' fuel : ℕ) (vec : Items D) (b : Bool) (tail : Bytes)
        → HasItems xs
        → IsPlainItems xs
        → length (text_items write_double indent depth xs ++ array_end depth' tail) < fuel
        → parse_items read_double fuel vec b
            (text_items write_double indent depth xs ++ array_end depth' tail)
          ≡ parsed (append vec xs) tail
    items_read no_items depth depth' fuel vec b tail has p l = absurd has
    items_read (item x no_items) depth depth' fuel vec b tail has (e, (p, _)) l =
        let rest = replicate (depth' * indent) b' ' ++ b']' ∷ tail in
        let view = text_value write_double indent depth x ++ 10 ∷ rest in
        let whole =
          regroup_item (new_line indent depth) (text_value write_double indent depth x) [] []
            (array_end depth' tail) in
        let (f1, b1, l1, e1) =
          items_new_line read_double (depth * indent) fuel vec b view
            (omega (arith, l, ap length whole)) in
        let (f2, b2, l2, e2) =
          value_in_items x depth f1 vec b1 10 rest p e l1
            (omega (arith, length-append (replicate (depth' * indent) b' ') (b']' ∷ tail)))
            (inr refl) in
        ap (parse_items read_double fuel vec b) whole
        ∙ e1
        ∙ e2
        ∙ items_close read_double (depth' * indent) f2 (push_back vec x) b2 tail l2
        ∙ ap (λ v. parsed v tail)
            (sym (append-no_items (push_back vec x)) ∙ append-push_back vec x no_items)
    items_read (item x (item y ys)) depth depth' fuel vec b tail has (e, (p, ps)) l =
        let rest = text_items write_double indent depth (item y ys) ++ array_end depth' tail in
        let view = text_value write_double indent depth x ++ b',' ∷ rest in
        let whole =
          regroup_item (new_line indent depth) (text_value write_double indent depth x) (b',' ∷ [])
            (text_items write_double indent depth (item y ys)) (array_end depth' tail) in
        let (f1, b1, l1, e1) =
          items_new_line read_double (depth * indent) fuel vec b view
            (omega (arith, l, ap length whole)) in
        let (f2, b2, l2, e2) =
          value_in_items x depth f1 vec b1 b',' rest p e l1
            (omega (
              arith,
              length-append (text_items write_double indent depth (item y ys))
                  (array_end depth' tail),
            ))
            (inl refl) in
        ap (parse_items read_double fuel vec b) whole
        ∙ e1
        ∙ e2
        ∙ items_read (item y ys) depth depth' f2 (push_back vec x) b2 tail tt ps l2
        ∙ ap (λ v. parsed v tail) (append-push_back vec x (item y ys))

    pub entries_read :
        (m : Entries D) (depth depth' fuel : ℕ) (acc : Entries D) (str tail : Bytes)
        → IsFull m
        → IsSorted (append_entries acc m)
        → IsPlainEntries m
        → length (text_entries write_double indent depth m ++ map_end depth' tail) < fuel
        → parse_entries read_double fuel acc key_start str
            (text_entries write_double indent depth m ++ map_end depth' tail)
          ≡ parsed (append_entries acc m) tail
    entries_read no_entries depth depth' fuel acc str tail full sorted p l = absurd full
    entries_read (entry key v no_entries) depth depth' fuel acc str tail full sorted (t, (p, _)) l =
        let rest = replicate (depth' * indent) b' ' ++ b'}' ∷ tail in
        let view = text_value write_double indent depth v ++ 10 ∷ rest in
        let whole =
          regroup_entry (new_line indent depth) (dump_string key) (codes " : ")
            (text_value write_double indent depth v) [] [] (map_end depth' tail) in
        let (f1, l1, e1) =
          entries_field read_double (depth * indent) fuel acc str key view t
            (omega (arith, l, ap length whole)) in
        let (f2, l2, e2) =
          value_in_entries v depth f1 acc key 10 rest p l1
            (omega (arith, length-append (replicate (depth' * indent) b' ') (b'}' ∷ tail)))
            (inr refl) in
        ap (parse_entries read_double fuel acc key_start str) whole
        ∙ e1
        ∙ e2
        ∙ entries_close read_double (depth' * indent) f2 (assign key v acc) [] tail l2
        ∙ ap (λ w. parsed w tail)
            (sym (append_entries-no_entries (assign key v acc))
              ∙ append_entries-assign acc key v no_entries sorted)
    entries_read (entry key v (entry key' v' m)) depth depth' fuel acc str tail full sorted
          (t, (p, ps)) l =
        let rest =
          text_entries write_double indent depth (entry key' v' m) ++ map_end depth' tail in
        let view = text_value write_double indent depth v ++ b',' ∷ rest in
        let whole =
          regroup_entry (new_line indent depth) (dump_string key) (codes " : ")
            (text_value write_double indent depth v) (b',' ∷ [])
            (text_entries write_double indent depth (entry key' v' m)) (map_end depth' tail) in
        let (f1, l1, e1) =
          entries_field read_double (depth * indent) fuel acc str key view t
            (omega (arith, l, ap length whole)) in
        let (f2, l2, e2) =
          value_in_entries v depth f1 acc key b',' rest p l1
            (omega (
              arith,
              length-append (text_entries write_double indent depth (entry key' v' m))
                  (map_end depth' tail),
            ))
            (inl refl) in
        let same = append_entries-assign acc key v (entry key' v' m) sorted in
        ap (parse_entries read_double fuel acc key_start str) whole
        ∙ e1
        ∙ e2
        ∙ entries_read (entry key' v' m) depth depth' f2 (assign key v acc) [] tail tt
            (rw same sorted) ps l2
        ∙ ap (λ w. parsed w tail) same
