-- ===== src/Json/Copy/Laws.antt =====
-- Constructors and the assignment of a map copy everything; the assignment of an array does not.
use co_uring_web.Prelude.{some, ◌≡◌, refl, sym, ap, ◌∙◌}
use co_uring_web.Json.{
  JsonObj, no_object, json_null, json_bool, json_string, json_integer, json_double, json_array,
  json_map, Items, no_items, item, Entries, no_entries, entry,
}
use co_uring_web.Json.Parse.{push_back, assign}
use co_uring_web.Json.Copy.{
  copy_value, copy_items, copy_entries, assign_items, assign_array, assign_entries, assign_map,
}
use co_uring_web.Json.RoundTrip.Plain.{
  IsSorted, append, append_entries, append-push_back, append-no_items, append_entries-no_entries,
  append_entries-assign,
}

module _ {D : Type 0} where
  -- No null pointers, and the keys of each map in order.
  unfoldable mutual
    pub IsWhole : JsonObj D → Type 0
    IsWhole no_object = ⊥
    IsWhole (json_array xs) = IsWholeItems xs
    IsWhole (json_map m) = IsSorted m × IsWholeEntries m
    IsWhole _ = Unit

    pub IsWholeItems : Items D → Type 0
    IsWholeItems no_items = Unit
    IsWholeItems (item v xs) = IsWhole v × IsWholeItems xs

    pub IsWholeEntries : Entries D → Type 0
    IsWholeEntries no_entries = Unit
    IsWholeEntries (entry k v m) = IsWhole v × IsWholeEntries m

  mutual
    unfolding copy_value IsWhole

    copy_value_same : (v : JsonObj D) → IsWhole v → copy_value v ≡ some v
    copy_value_same no_object h = absurd h
    copy_value_same json_null h = refl
    copy_value_same (json_bool b) h = refl
    copy_value_same (json_string s) h = refl
    copy_value_same (json_integer n) h = refl
    copy_value_same (json_double d) h = refl
    copy_value_same (json_array xs) h = rw (copy_items_same xs no_items h) refl
    copy_value_same (json_map m) (s, h) = rw (copy_entries_same m no_entries s h) refl

    copy_items_same :
        (xs vec : Items D) → IsWholeItems xs → copy_items xs vec ≡ some (append vec xs)
    copy_items_same no_items vec h = ap some (sym (append-no_items vec))
    copy_items_same (item v xs) vec (h, hs) =
        rw (copy_value_same v h)
          (copy_items_same xs (push_back vec v) hs ∙ ap some (append-push_back vec v xs))

    copy_entries_same :
        (n m : Entries D)
        → IsSorted (append_entries m n)
        → IsWholeEntries n
        → copy_entries n m ≡ some (append_entries m n)
    copy_entries_same no_entries m s h = ap some (sym (append_entries-no_entries m))
    copy_entries_same (entry k v n) m s (h, hs) =
        let same = append_entries-assign m k v n s in
        rw (copy_value_same v h) (copy_entries_same n (assign k v m) (rw same s) hs ∙ ap some same)

  -- A copy of a value is the value.
  pub copy_value-eq : (v : JsonObj D) → IsWhole v → copy_value v ≡ some v
  copy_value-eq v h = copy_value_same v h

  -- The elements that are neither null nor a bool.
  abbrev pub without_null_bool : Items D → Items D
  without_null_bool no_items = no_items
  without_null_bool (item json_null xs) = without_null_bool xs
  without_null_bool (item (json_bool b) xs) = without_null_bool xs
  without_null_bool (item v xs) = item v (without_null_bool xs)

  assign_items_kept :
      (xs vec : Items D)
      → IsWholeItems xs
      → assign_items xs vec ≡ some (append vec (without_null_bool xs))
  unfolding assign_items IsWhole
  assign_items_kept no_items vec h = ap some (sym (append-no_items vec))
  assign_items_kept (item json_null xs) vec (h, hs) = assign_items_kept xs vec hs
  assign_items_kept (item (json_bool b) xs) vec (h, hs) = assign_items_kept xs vec hs
  assign_items_kept (item no_object xs) vec (h, hs) = absurd h
  assign_items_kept (item (json_string s) xs) vec (h, hs) =
      assign_items_kept xs (push_back vec (json_string s)) hs
      ∙ ap some (append-push_back vec (json_string s) (without_null_bool xs))
  assign_items_kept (item (json_integer n) xs) vec (h, hs) =
      assign_items_kept xs (push_back vec (json_integer n)) hs
      ∙ ap some (append-push_back vec (json_integer n) (without_null_bool xs))
  assign_items_kept (item (json_double d) xs) vec (h, hs) =
      assign_items_kept xs (push_back vec (json_double d)) hs
      ∙ ap some (append-push_back vec (json_double d) (without_null_bool xs))
  assign_items_kept (item (json_array ys) xs) vec (h, hs) = rw (copy_value_same (json_array ys) h) (
      assign_items_kept xs (push_back vec (json_array ys)) hs
      ∙ ap some (append-push_back vec (json_array ys) (without_null_bool xs)))
  assign_items_kept (item (json_map m) xs) vec (h, hs) = rw (copy_value_same (json_map m) h) (
      assign_items_kept xs (push_back vec (json_map m)) hs
      ∙ ap some (append-push_back vec (json_map m) (without_null_bool xs)))

  -- Assigning an array that holds no null pointers, and in whose maps the keys are in order, copies its
  -- elements but for null and the bools, which are lost.
  pub assign_array-eq :
      (xs : Items D) → IsWholeItems xs → assign_array xs ≡ some (without_null_bool xs)
  unfolding assign_array
  assign_array-eq xs h = assign_items_kept xs no_items h

  assign_entries_same :
      (n m : Entries D)
      → IsSorted (append_entries m n)
      → IsWholeEntries n
      → assign_entries n m ≡ some (append_entries m n)
  unfolding assign_entries IsWhole
  assign_entries_same no_entries m s h = ap some (sym (append_entries-no_entries m))
  assign_entries_same (entry k v n) m s (h, hs) =
      let same = append_entries-assign m k v n s in
      rw (copy_value_same v h) (assign_entries_same n (assign k v m) (rw same s) hs ∙ ap some same)

  -- Assigning a whole map, with its keys in order, copies it.
  pub assign_map-eq : (n : Entries D) → IsSorted n → IsWholeEntries n → assign_map n ≡ some n
  unfolding assign_map
  assign_map-eq n s h = assign_entries_same n no_entries s h
