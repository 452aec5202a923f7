-- ===== src/Json/Access.antt =====
-- `JsonObj::operator[]` and `JsonObj::getData` of src/json.cpp, and the move assignments.
pub mod Laws
use co_uring_web.Prelude.{ℕ, zero, suc, Bool, Option, none, some, Bytes, bytes_eq, if◌then◌else◌}
use co_uring_web.Prelude.Int.{ℤ}
use co_uring_web.Json.{
  JsonObj, no_object, json_null, json_bool, json_string, json_integer, json_double, json_array,
  json_map, Items, no_items, item, Entries, no_entries, entry,
}

-- An element, or a `JsonTypeError`, or undefined behaviour: an index out of range, or a null pointer that is
-- followed.
pub data Accessed (D : Type 0) : Type 0 where
  element : JsonObj D → Accessed D
  type_error : Accessed D
  fault : Accessed D

module _ {D : Type 0} where
  -- `map.find`
  abbrev pub find_entry : Bytes → Entries D → Option (JsonObj D)
  find_entry name no_entries = none
  find_entry name (entry k v m) = if bytes_eq k name then some v else find_entry name m

  abbrev pub nth : Items D → ℕ → Option (JsonObj D)
  nth no_items index = none
  nth (item v xs) zero = some v
  nth (item v xs) (suc index) = nth xs index

  -- `*p`, for a pointer in a container that may hold none.
  abbrev pub follow : Option (JsonObj D) → Accessed D
  follow none = fault
  follow (some no_object) = fault
  follow (some v) = element v

  -- `operator[](int)`, for an index that is not negative.
  unfoldable pub at_index : JsonObj D → ℕ → Accessed D
  at_index (json_array xs) index = follow (nth xs index)
  at_index _ index = type_error

  -- `operator[]` of a string. The std::map adds a null pointer at a key that is not there, which is
  -- followed.
  unfoldable pub at_key : JsonObj D → Bytes → Accessed D
  at_key (json_map m) str = follow (find_entry str m)
  at_key _ str = type_error

-- What the pointer that `getData` returns points to.
pub data Data (D : Type 0) : Type 0 where
  null_pointer : Data D
  double_data : D → Data D
  integer_data : ℤ → Data D
  bool_data : Bool → Data D
  map_data : Entries D → Data D
  array_data : Items D → Data D
  string_data : Bytes → Data D

-- `getData`; of a null pointer it is undefined behaviour.
abbrev pub get_data : {D : Type 0} → JsonObj D → Option (Data D)
get_data no_object = none
get_data json_null = some null_pointer
get_data (json_double d) = some (double_data d)
get_data (json_integer n) = some (integer_data n)
get_data (json_bool b) = some (bool_data b)
get_data (json_map m) = some (map_data m)
get_data (json_array xs) = some (array_data xs)
get_data (json_string s) = some (string_data s)

-- `operator=(JsonArray&&)` and `operator=(JsonMap&&)`, for two objects: they are swapped.
abbrev pub move_array : {D : Type 0} → Items D × Items D → Items D × Items D
move_array (xs, o) = (o, xs)

abbrev pub move_map : {D : Type 0} → Entries D × Entries D → Entries D × Entries D
move_map (m, o) = (o, m)
