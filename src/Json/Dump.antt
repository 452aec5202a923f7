-- ===== src/Json/Dump.antt =====
-- `dump`, `dumpArray` and `dumpMap` of src/json.cpp. Each returns what it appends to `res`. A null
-- pointer among the elements is undefined behaviour: `none`. The flag `singleLine` is read by nothing.
use co_uring_web.Prelude.{ℕ, suc, ◌*◌, Option, none, some, [], ◌∷◌, ◌++◌, Bytes, codes, replicate}
use co_uring_web.Prelude.Options.{◌>>=◌}
use co_uring_web.Json.{
  JsonObj, no_object, json_null, json_bool, json_string, json_integer, json_double, json_array,
  json_map, Items, no_items, item, Entries, no_entries, entry,
}
use co_uring_web.Json.Text.{dump_string, dump_bool}
use co_uring_web.Json.Number.{write_int64}

-- A new line with `depth` times `indent` spaces.
abbrev pub new_line : ℕ → ℕ → Bytes
new_line indent depth = 10 ∷ replicate (depth * indent) b' '

module _ {D : Type 0} where
  -- The comma behind every element but the last.
  abbrev pub comma_before : Items D → Bytes
  comma_before no_items = []
  comma_before (item _ _) = b',' ∷ []

  abbrev pub comma_before_entry : Entries D → Bytes
  comma_before_entry no_entries = []
  comma_before_entry (entry _ _ _) = b',' ∷ []

  -- The brackets round the lines of the elements.
  abbrev pub in_brackets : ℕ → ℕ → Items D → Bytes → Bytes
  in_brackets indent depth no_items lines = codes "[]"
  in_brackets indent depth (item _ _) lines = b'[' ∷ (lines ++ (new_line indent depth ++ b']' ∷ []))

  abbrev pub in_braces : ℕ → ℕ → Entries D → Bytes → Bytes
  in_braces indent depth no_entries lines = codes "{}"
  in_braces indent depth (entry _ _ _) lines =
      b'{' ∷ (lines ++ (new_line indent depth ++ b'}' ∷ []))

module _ {D : Type 0} (write_double : D → Bytes) (indent : ℕ) where
  unfoldable mutual
    -- The switch of both loops.
    pub dump_value : ℕ → JsonObj D → Option Bytes
    dump_value depth no_object = none
    dump_value depth json_null = some (codes "null")
    dump_value depth (json_bool b) = some (dump_bool b)
    dump_value depth (json_string s) = some (dump_string s)
    dump_value depth (json_integer n) = some (write_int64 n)
    dump_value depth (json_double d) = some (write_double d)
    dump_value depth (json_array xs) =
        dump_items (suc depth) xs >>= λ lines. some (in_brackets indent depth xs lines)
    dump_value depth (json_map m) =
        dump_entries (suc depth) m >>= λ lines. some (in_braces indent depth m lines)

    -- The loop of `dumpArray`, over elements that stand at `depth`.
    pub dump_items : ℕ → Items D → Option Bytes
    dump_items depth no_items = some []
    dump_items depth (item v xs) = dump_value depth v >>= λ text. dump_items depth xs >>= λ lines.
        some (new_line indent depth ++ (text ++ (comma_before xs ++ lines)))

    -- The loop of `dumpMap`.
    pub dump_entries : ℕ → Entries D → Option Bytes
    dump_entries depth no_entries = some []
    dump_entries depth (entry k v m) = dump_value depth v >>= λ text.
        dump_entries depth m >>= λ lines. some (
          new_line indent depth
          ++ (dump_string k ++ (codes " : " ++ (text ++ (comma_before_entry m ++ lines)))))

-- Only an array or a map can be dumped.
pub data Dumped : Type 0 where
  dumped : Bytes → Dumped
  type_error : Dumped
  fault : Dumped

abbrev pub or_fault : Option Bytes → Dumped
or_fault none = fault
or_fault (some text) = dumped text

unfoldable pub dump : {D : Type 0} → (D → Bytes) → JsonObj D → ℕ → Dumped
dump write_double (json_array xs) indent =
    or_fault (dump_value write_double indent 0 (json_array xs))
dump write_double (json_map m) indent = or_fault (dump_value write_double indent 0 (json_map m))
dump write_double _ indent = type_error
