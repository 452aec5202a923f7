-- ===== src/Json/RoundTrip/Plain.antt =====
-- The values that a text of JSON stands for, and their text.
use co_uring_web.Prelude.{
  ℕ, suc, true, false, some, [], ◌++◌, Bytes, codes, bytes_eq, ◌≡◌, refl, ap, arith,
}
use co_uring_web.Prelude.Keys.{bytes_lt, bytes_lt_trans, bytes_lt_irrefl, bytes_eq_iff}
use co_uring_web.Json.{
  JsonObj, no_object, json_null, json_bool, json_string, json_integer, json_double, json_array,
  json_map, Items, no_items, item, Entries, no_entries, entry,
}
use co_uring_web.Json.Text.{dump_string, dump_bool}
use co_uring_web.Json.Number.{write_int64}
use co_uring_web.Json.Parse.{push_back, assign}
use co_uring_web.Json.Dump.{
  new_line, comma_before, comma_before_entry, in_brackets, in_braces, dump_value, dump_items,
  dump_entries,
}
use co_uring_web.Json.RoundTrip.Strings.{IsText}
use co_uring_web.Json.RoundTrip.Numbers.{IsInt64}

module _ {D : Type 0} where
  -- The keys after `k` are greater.
  abbrev pub Above : Bytes → Entries D → Type 0
  Above k no_entries = Unit
  Above k (entry j w m) = (bytes_lt k j ≡ true) × Above k m

  -- The order of a std::map.
  abbrev pub IsSorted : Entries D → Type 0
  IsSorted no_entries = Unit
  IsSorted (entry k v m) = Above k m × IsSorted m

  abbrev pub IsFull : Entries D → Type 0
  IsFull no_entries = ⊥
  IsFull (entry _ _ _) = Unit

  -- A value that is read back as an element of an array: not null, which becomes a null pointer.
  abbrev pub IsElement : JsonObj D → Type 0
  IsElement json_null = ⊥
  IsElement _ = Unit

  -- No null pointers and no doubles, strings without odd control characters, no empty maps, and no null
  -- in an array.
  unfoldable mutual
    pub IsPlain : JsonObj D → Type 0
    IsPlain no_object = ⊥
    IsPlain json_null = Unit
    IsPlain (json_bool b) = Unit
    IsPlain (json_string s) = IsText s
    IsPlain (json_integer n) = IsInt64 n
    IsPlain (json_double d) = ⊥
    IsPlain (json_array xs) = IsPlainItems xs
    IsPlain (json_map m) = IsFull m × (IsSorted m × IsPlainEntries m)

    pub IsPlainItems : Items D → Type 0
    IsPlainItems no_items = Unit
    IsPlainItems (item v xs) = IsElement v × (IsPlain v × IsPlainItems xs)

    pub IsPlainEntries : Entries D → Type 0
    IsPlainEntries no_entries = Unit
    IsPlainEntries (entry k v m) = IsText k × (IsPlain v × IsPlainEntries m)

  abbrev pub append : Items D → Items D → Items D
  append no_items ys = ys
  append (item x xs) ys = item x (append xs ys)

  abbrev pub append_entries : Entries D → Entries D → Entries D
  append_entries no_entries n = n
  append_entries (entry k v m) n = entry k v (append_entries m n)

  pub append-push_back :
      (xs : Items D) (v : JsonObj D) (ys : Items D)
      → append (push_back xs v) ys ≡ append xs (item v ys)
  append-push_back no_items v ys = refl
  append-push_back (item x xs) v ys = ap (item x) (append-push_back xs v ys)

  pub append-no_items : (xs : Items D) → append xs no_items ≡ xs
  append-no_items no_items = refl
  append-no_items (item x xs) = ap (item x) (append-no_items xs)

  pub append_entries-no_entries : (m : Entries D) → append_entries m no_entries ≡ m
  append_entries-no_entries no_entries = refl
  append_entries-no_entries (entry k v m) = ap (entry k v) (append_entries-no_entries m)

  Above-append_entries :
      (j : Bytes) (acc : Entries D) (k : Bytes) (v : JsonObj D) (m : Entries D)
      → Above j (append_entries acc (entry k v m))
      → bytes_lt j k ≡ true
  Above-append_entries j no_entries k v m h = h.0
  Above-append_entries j (entry i w acc) k v m h = Above-append_entries j acc k v m h.1

  -- Assigning a key above all others adds it at the end.
  pub append_entries-assign :
      (acc : Entries D) (k : Bytes) (v : JsonObj D) (m : Entries D)
      → IsSorted (append_entries acc (entry k v m))
      → append_entries (assign k v acc) m ≡ append_entries acc (entry k v m)
  append_entries-assign no_entries k v m s = refl
  append_entries-assign (entry j w acc) k v m (a, s) =
      let less = Above-append_entries j acc k v m a in
      let not_less : bytes_lt k j ≡ false =
        ground (arith, bytes_lt_trans j k j less, bytes_lt_irrefl j) in
      let not_eq : bytes_eq j k ≡ false = ground (arith, (bytes_eq_iff j k).0, bytes_lt_irrefl j) in
      rw (not_less, not_eq) (ap (entry j w) (append_entries-assign acc k v m s))

module _ {D : Type 0} (write_double : D → Bytes) (indent : ℕ) where
  -- The text of a value.
  unfoldable mutual
    pub text_value : ℕ → JsonObj D → Bytes
    text_value depth no_object = []
    text_value depth json_null = codes "null"
    text_value depth (json_bool b) = dump_bool b
    text_value depth (json_string s) = dump_string s
    text_value depth (json_integer n) = write_int64 n
    text_value depth (json_double d) = write_double d
    text_value depth (json_array xs) = in_brackets indent depth xs (text_items (suc depth) xs)
    text_value depth (json_map m) = in_braces indent depth m (text_entries (suc depth) m)

    pub text_items : ℕ → Items D → Bytes
    text_items depth no_items = []
    text_items depth (item v xs) =
        new_line indent depth ++ (text_value depth v ++ (comma_before xs ++ text_items depth xs))

    pub text_entries : ℕ → Entries D → Bytes
    text_entries depth no_entries = []
    text_entries depth (entry k v m) =
        new_line indent depth
        ++ (dump_string k
            ++ (codes " : "
                ++ (text_value depth v ++ (comma_before_entry m ++ text_entries depth m))))

  mutual
    unfolding dump_value text_value IsPlain

    pub dump_value-eq :
        (depth : ℕ) (v : JsonObj D)
        → IsPlain v
        → dump_value write_double indent depth v ≡ some (text_value depth v)
    dump_value-eq depth no_object h = absurd h
    dump_value-eq depth json_null h = refl
    dump_value-eq depth (json_bool b) h = refl
    dump_value-eq depth (json_string s) h = refl
    dump_value-eq depth (json_integer n) h = refl
    dump_value-eq depth (json_double d) h = absurd h
    dump_value-eq depth (json_array xs) h = rw (dump_items-eq (suc depth) xs h) refl
    dump_value-eq depth (json_map m) (full, (sorted, h)) = rw (dump_entries-eq (suc depth) m h) refl

    dump_items-eq :
        (depth : ℕ) (xs : Items D)
        → IsPlainItems xs
        → dump_items write_double indent depth xs ≡ some (text_items depth xs)
    dump_items-eq depth no_items h = refl
    dump_items-eq depth (item v xs) (e, (p, h)) =
        rw (dump_value-eq depth v p, dump_items-eq depth xs h) refl

    dump_entries-eq :
        (depth : ℕ) (m : Entries D)
        → IsPlainEntries m
        → dump_entries write_double indent depth m ≡ some (text_entries depth m)
    dump_entries-eq depth no_entries h = refl
    dump_entries-eq depth (entry k v m) (t, (p, h)) =
        rw (dump_value-eq depth v p, dump_entries-eq depth m h) refl
