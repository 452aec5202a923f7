-- ===== src/Config.antt =====
-- `Config::init` of include/config.h and src/config.cpp. The content of the file is given, and a document
-- is a tree that Json/Parse reads from it.
pub mod Written
mod Tests
use co_uring_web.Prelude.{
  ℕ, Option, none, some, List, [], ◌∷◌, Bytes, codes, bytes_eq, if◌then◌else◌,
}
use co_uring_web.Prelude.Options.{◌>>=◌}
use co_uring_web.Json.{
  JsonObj, no_object, json_null, json_bool, json_string, json_integer, json_double, json_array,
  json_map, Items, no_items, item, Entries, no_entries, entry,
}
use co_uring_web.Json.Parsed.{Parsed, parsed, refused, out_of_fuel}
use co_uring_web.Json.Parse.{parse}
use co_uring_web.Json.Access.{
  find_entry, Data, null_pointer, double_data, integer_data, bool_data, map_data, array_data,
  string_data, get_data,
}

pub record Config (D : Type 0) : Type 0 where
  pub map : Entries D
  pub http_dir : Bytes
  pub logger_file_name : Bytes
  pub logger_output_dir : Bytes

-- What `init` comes to: a configuration, an exception of readTextFile or the parser, or undefined behaviour.
pub data Initialized (D : Type 0) : Type 0 where
  initialized : Config D → Initialized D
  thrown : Initialized D
  fault : Initialized D

module _ {D : Type 0} where
  -- `*((std::string *)(it->second.get()->getData()))`, undefined for what is no string.
  abbrev pub string_at : Option (Data D) → Option Bytes
  string_at (some (string_data s)) = some s
  string_at _ = none

  abbrev pub or_default : Bytes → Option (JsonObj D) → Option Bytes
  or_default default_value none = some default_value
  or_default default_value (some v) = string_at (get_data v)

  -- `init_##name`
  unfoldable pub init_prop : Bytes → Bytes → Entries D → Option Bytes
  init_prop name default_value m = or_default default_value (find_entry name m)

  abbrev pub or_fault : Option (Config D) → Initialized D
  or_fault none = fault
  or_fault (some config) = initialized config

  -- The three properties of a map.
  unfoldable pub init_props : Entries D → Initialized D
  init_props m = or_fault (
      init_prop (codes "http_dir") (codes "/home/zhouheng/C++/co_uring_http/public") m
      >>= λ http_dir.
          init_prop (codes "logger_file_name") (codes "co_uring_http") m >>= λ logger_file_name.
          init_prop (codes "logger_output_dir") (codes "/home/zhouheng/C++/co_uring_http/log") m
          >>= λ logger_output_dir. some (record {
            map = m;
            http_dir = http_dir;
            logger_file_name = logger_file_name;
            logger_output_dir = logger_output_dir;
          }))

  -- What follows `parse`, which is never out of fuel. An object that is no map is taken for one.
  abbrev pub of_document : Parsed (JsonObj D) → Initialized D
  of_document (parsed (json_map m) _) = init_props m
  of_document (parsed _ _) = fault
  of_document refused = thrown
  of_document out_of_fuel = thrown

  abbrev pub of_content : (Bytes → D) → Option Bytes → Initialized D
  of_content read_double none = thrown
  of_content read_double (some content) = of_document (parse read_double content)

  -- `init`, with the configuration so far; without a file name it stays. `read_text_file` is `none` where
  -- readTextFile throws, since the file cannot be opened.
  unfoldable pub init : (Bytes → D) → (Bytes → Option Bytes) → Config D → Bytes → Initialized D
  init read_double read_text_file config [] = initialized config
  init read_double read_text_file config (c ∷ config_file) =
      of_content read_double (read_text_file (c ∷ config_file))
