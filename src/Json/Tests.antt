-- ===== src/Json/Tests.antt =====
-- Small values and texts. A double is the text that it is written as.
use co_uring_web.Prelude.{bytes_eq, [], ◌∷◌, ◌++◌, Bytes, codes, true, some, ◌≡◌, ◌⊎◌, refl, arith}
use co_uring_web.Prelude.Int.{pos, negsuc}
use co_uring_web.Json.{
  JsonObj, no_object, json_null, json_bool, json_string, json_integer, json_array, json_map, Items,
  no_items, item, Entries, no_entries, entry,
}
use co_uring_web.Json.Parsed.{parsed, refused}
use co_uring_web.Json.Parse.{
  parse_array, parse_items, parse_map, parse_entries, array_round, map_round, label, only_blanks,
  parse,
}
use co_uring_web.Json.Number.{parse_num, get_num, read_int64}
use co_uring_web.Json.Dump.{dumped, fault, dump, dump_value}
use co_uring_web.Json.Copy.{assign_array}
use co_uring_web.Json.Copy.Laws.{
  IsWhole, IsWholeItems, IsWholeEntries, assign_array-eq, without_null_bool,
}
use co_uring_web.Json.RoundTrip.Document.{parse-dump}
use co_uring_web.Json.RoundTrip.Plain.{IsSorted, IsPlain, IsPlainItems, IsPlainEntries}
use co_uring_web.Prelude.Keys.{bytes_lt}
use co_uring_web.Json.Terminates.{parse_terminates}

abbrev double : Bytes → Bytes
double text = text

abbrev entries : Entries Bytes
entries = entry (codes "a") (json_integer (negsuc 41)) (entry (codes "b") json_null no_entries)

abbrev items : Items Bytes
items = item (json_bool true) (item (json_map entries) (item (json_string (codes "q\"")) no_items))

abbrev nested : JsonObj Bytes
nested = json_array (item (json_array items) no_items)

entries-IsPlain : IsPlainEntries entries
unfolding IsPlain
entries-IsPlain = ((refl, tt), (omega arith, ((refl, tt), (tt, tt))))

entries-IsSorted : IsSorted entries
unfolding bytes_lt
entries-IsSorted = ((refl, tt), (tt, tt))

items-IsPlain : IsPlainItems items
unfolding IsPlain
items-IsPlain =
    (tt, (tt, (tt, ((tt, (entries-IsSorted, entries-IsPlain)), (tt, ((refl, (refl, tt)), tt))))))

nested-IsPlain : IsPlain nested
unfolding IsPlain
nested-IsPlain = (tt, (items-IsPlain, tt))

parse-dump_example :
    (text : Bytes) × (dump double nested 2 ≡ dumped text) × (parse double text ≡ parsed nested [])
parse-dump_example = parse-dump double double 2 nested tt nested-IsPlain

parse_terminates_example :
    ((v : JsonObj Bytes) × (parse double (codes "[[1]]") ≡ parsed v []))
    ⊎ (parse double (codes "[[1]]") ≡ refused)
parse_terminates_example = parse_terminates double (codes "[[1]]")

-- The example is the second case: the bracket behind a nested array is skipped.
parse_nested : parse double (codes "[[1]]") ≡ refused
unfolding parse parse_array parse_items parse_map parse_entries array_round map_round label
    only_blanks parse_num get_num read_int64 bytes_eq
parse_nested = refl

-- Whatever stands there is skipped.
parse_skipped :
    parse double (codes "[[1]x]")
    ≡ parsed (json_array (item (json_array (item (json_integer (pos 1)) no_items)) no_items)) []
unfolding parse parse_array parse_items parse_map parse_entries array_round map_round label
    only_blanks parse_num get_num read_int64 bytes_eq
parse_skipped = refl

parse_empty_map : parse double (codes "{}") ≡ refused
unfolding parse parse_array parse_items parse_map parse_entries array_round map_round label
    only_blanks parse_num get_num read_int64 bytes_eq
parse_empty_map = refl

-- Yet `dump` writes it.
dump_empty_map : dump double (json_map no_entries) 2 ≡ dumped (codes "{}")
unfolding dump dump_value
dump_empty_map = refl

parse_no_commas :
    parse double (codes "[1 2,]")
    ≡ parsed (json_array (item (json_integer (pos 1)) (item (json_integer (pos 2)) no_items))) []
unfolding parse parse_array parse_items parse_map parse_entries array_round map_round label
    only_blanks parse_num get_num read_int64 bytes_eq
parse_no_commas = refl

parse_null : parse double (codes "[null]") ≡ parsed (json_array (item no_object no_items)) []
unfolding parse parse_array parse_items parse_map parse_entries array_round map_round label
    only_blanks parse_num get_num read_int64 bytes_eq
parse_null = refl

dump-parse_null : dump double (json_array (item no_object no_items)) 2 ≡ fault
unfolding dump dump_value
dump-parse_null = refl

-- A double that is written with no point is read back as an integer.
parse_integral :
    parse double (codes "[7]") ≡ parsed (json_array (item (json_integer (pos 7)) no_items)) []
unfolding parse parse_array parse_items parse_map parse_entries array_round map_round label
    only_blanks parse_num get_num read_int64 bytes_eq
parse_integral = refl

-- A control character in a string is written as it stands, and refused.
dump_control :
    dump double (json_array (item (json_string (1 ∷ [])) no_items)) 0
    ≡ dumped (codes "[\n\"" ++ 1 ∷ codes "\"\n]")
unfolding dump dump_value
dump_control = refl

nested-IsWhole : IsWhole nested
unfolding IsWhole
nested-IsWhole = ((tt, ((entries-IsSorted, (tt, (tt, tt))), (tt, tt))), tt)

items-IsWhole : IsWholeItems items
unfolding IsWhole
items-IsWhole = nested-IsWhole.0

-- The first element is lost.
assign_array-eq_example : assign_array items ≡ some (without_null_bool items)
assign_array-eq_example = assign_array-eq items items-IsWhole

entries-IsWhole : IsWholeEntries entries
unfolding IsWhole
entries-IsWhole = (tt, (tt, tt))
