-- ===== src/Json.antt =====
-- The values of include/json.h, `JsonObj` and its derived classes. A `std::unique_ptr<JsonObj>` is a
-- value, or `no_object` where it is null. `D` stands for the type double.
pub mod Parsed
pub mod Text
pub mod Number
pub mod Parse
pub mod Dump
pub mod Fits
pub mod Terminates
pub mod RoundTrip
pub mod Copy
pub mod Access
mod Tests
use co_uring_web.Prelude.{Bool, Bytes}
use co_uring_web.Prelude.Int.{ℤ}

-- The vector of an array and the std::map of a map come with their own lists.
mutual
  pub data JsonObj (D : Type 0) : Type 0 where
    no_object : JsonObj D
    json_null : JsonObj D
    json_bool : Bool → JsonObj D
    json_string : Bytes → JsonObj D
    json_integer : ℤ → JsonObj D
    json_double : D → JsonObj D
    json_array : Items D → JsonObj D
    json_map : Entries D → JsonObj D

  pub data Items (D : Type 0) : Type 0 where
    no_items : Items D
    item : JsonObj D → Items D → Items D

  pub data Entries (D : Type 0) : Type 0 where
    no_entries : Entries D
    entry : Bytes → JsonObj D → Entries D → Entries D
