-- ===== src/Json/Access/Laws.antt =====
-- What is put into a map is found there.
use co_uring_web.Prelude.{
  some, Bytes, bytes_eq, if◌then◌else◌, ◌≡◌, refl, arith, Bool-cases, inl, inr,
}
use co_uring_web.Prelude.Keys.{bytes_eq_iff}
use co_uring_web.Json.{JsonObj, json_map, Entries, no_entries, entry}
use co_uring_web.Json.Parse.{assign}
use co_uring_web.Json.Access.{find_entry, follow, at_key}

module _ {D : Type 0} where
  find_entry-assign :
      (j k : Bytes) (v : JsonObj D) (m : Entries D)
      → find_entry j (assign k v m) ≡ (if bytes_eq k j then some v else find_entry j m)
  find_entry-assign j k v no_entries = refl
  find_entry-assign j k v (entry i w m) =
      ground
        (arith, find_entry-assign j k v m, bytes_eq_iff i k, bytes_eq_iff i j, bytes_eq_iff k j)

  -- After `insert_or_assign` of a value at a key, `operator[]` finds that value at the key, and at any
  -- other key what it found before.
  pub at_key-assign :
      (j k : Bytes) (v : JsonObj D) (m : Entries D)
      → at_key (json_map (assign k v m)) j
        ≡ (if bytes_eq k j then follow (some v) else at_key (json_map m) j)
  unfolding at_key
  at_key-assign j k v m = elim (Bool-cases (bytes_eq k j)) [
    | inl e ↦ rw (find_entry-assign j k v m, e) refl
    | inr e ↦ rw (find_entry-assign j k v m, e) refl
  ]
