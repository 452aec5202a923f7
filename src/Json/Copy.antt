-- ===== src/Json/Copy.antt =====
-- Copies: the constructors of `JsonArray` and `JsonMap` from a vector and a std::map, and their
-- assignments, of src/json.cpp. A null pointer among the elements is undefined behaviour: `none`. The
-- assignment of an object to itself, which changes nothing, is left out.
pub mod Laws
use co_uring_web.Prelude.{Option, none, some}
use co_uring_web.Prelude.Options.{◌>>=◌}
use co_uring_web.Json.{
  JsonObj, no_object, json_null, json_bool, json_string, json_integer, json_double, json_array,
  json_map, Items, no_items, item, Entries, no_entries, entry,
}
use co_uring_web.Json.Parse.{push_back, assign}

module _ {D : Type 0} where
  unfoldable mutual
    -- The switch of all four loops, where it makes a copy.
    pub copy_value : JsonObj D → Option (JsonObj D)
    copy_value no_object = none
    copy_value json_null = some json_null
    copy_value (json_bool b) = some (json_bool b)
    copy_value (json_string s) = some (json_string s)
    copy_value (json_integer n) = some (json_integer n)
    copy_value (json_double d) = some (json_double d)
    copy_value (json_array xs) = copy_items xs no_items >>= λ ys. some (json_array ys)
    copy_value (json_map m) = copy_entries m no_entries >>= λ n. some (json_map n)

    -- The loop of the constructor `JsonArray(vec)`, with `data`.
    pub copy_items : Items D → Items D → Option (Items D)
    copy_items no_items vec = some vec
    copy_items (item v xs) vec = copy_value v >>= λ w. copy_items xs (push_back vec w)

    -- The loop of the constructor `JsonMap(m)`.
    pub copy_entries : Entries D → Entries D → Option (Entries D)
    copy_entries no_entries m = some m
    copy_entries (entry k v n) m = copy_value v >>= λ w. copy_entries n (assign k w m)

  -- The loop of the assignment of a `JsonArray`. Its switch has no label for null and for bool.
  unfoldable pub assign_items : Items D → Items D → Option (Items D)
  unfolding copy_value
  assign_items no_items vec = some vec
  assign_items (item json_null xs) vec = assign_items xs vec
  assign_items (item (json_bool b) xs) vec = assign_items xs vec
  assign_items (item v xs) vec = copy_value v >>= λ w. assign_items xs (push_back vec w)

  unfoldable pub assign_array : Items D → Option (Items D)
  assign_array xs = assign_items xs no_items

  -- The loop of the assignment of a `JsonMap`.
  unfoldable pub assign_entries : Entries D → Entries D → Option (Entries D)
  unfolding copy_value
  assign_entries no_entries m = some m
  assign_entries (entry k v n) m = copy_value v >>= λ w. assign_entries n (assign k w m)

  unfoldable pub assign_map : Entries D → Option (Entries D)
  assign_map n = assign_entries n no_entries
