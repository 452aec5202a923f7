-- ===== src/Config/Written.antt =====
-- A configuration that `dump` has written.
use co_uring_web.Prelude.{ℕ, ◌∷◌, Bytes, codes, none, some, ◌≡◌, ◌⊎◌, inl, inr, refl, sym, ap, ◌∙◌}
use co_uring_web.Json.{json_map, json_string, Entries}
use co_uring_web.Json.Access.{find_entry}
use co_uring_web.Json.Dump.{dumped, dump}
use co_uring_web.Json.RoundTrip.Plain.{IsPlain}
use co_uring_web.Json.RoundTrip.Document.{parse-dump}
use co_uring_web.Config.{Config, initialized, or_default, of_document, init, init_prop, init_props}

-- The map has this text at the name, or nothing, and then the value is the default.
abbrev pub IsSetting : {D : Type 0} → Bytes → Bytes → Entries D → Bytes → Type 0
IsSetting name default_value m v =
    (find_entry name m ≡ some (json_string v)) ⊎ ((find_entry name m ≡ none) × (v ≡ default_value))

init_prop-IsSetting :
    {D : Type 0} (name default_value : Bytes) (m : Entries D) (v : Bytes)
    → IsSetting name default_value m v
    → init_prop name default_value m ≡ some v
unfolding init_prop
init_prop-IsSetting name default_value m v (inl e) = ap (or_default default_value) e
init_prop-IsSetting name default_value m v (inr (e, d)) =
    ap (or_default default_value) e ∙ ap some (sym d)

-- If each of the three names has a string in a plain map, or is not in it, then from a file with the text
-- that `dump` writes of the map, init takes the map and the three values, of which a missing one is the
-- default.
pub init-dump :
    {D : Type 0} (read_double : Bytes → D) (write_double : D → Bytes) (indent : ℕ) (m : Entries D)
    (config : Config D) (c : ℕ) (config_file http_dir logger_file_name logger_output_dir : Bytes)
    → IsPlain (json_map m)
    → IsSetting (codes "http_dir") (codes "/home/zhouheng/C++/co_uring_http/public") m http_dir
    → IsSetting (codes "logger_file_name") (codes "co_uring_http") m logger_file_name
    → IsSetting
        (codes "logger_output_dir")
        (codes "/home/zhouheng/C++/co_uring_http/log")
        m
        logger_output_dir
    → (text : Bytes) × (dump write_double (json_map m) indent ≡ dumped text)
      × (init read_double (λ file. some text) config (c ∷ config_file)
          ≡ initialized (record {
            map = m;
            http_dir = http_dir;
            logger_file_name = logger_file_name;
            logger_output_dir = logger_output_dir;
          }))
unfolding init init_props
init-dump read_double write_double indent m config c config_file http_dir logger_file_name
      logger_output_dir p h n o =
    let (text, e, f) = parse-dump read_double write_double indent (json_map m) tt p in
    let dir =
      init_prop-IsSetting (codes "http_dir") (codes "/home/zhouheng/C++/co_uring_http/public") m
        http_dir h in
    let name =
      init_prop-IsSetting (codes "logger_file_name") (codes "co_uring_http") m logger_file_name n in
    let output =
      init_prop-IsSetting (codes "logger_output_dir") (codes "/home/zhouheng/C++/co_uring_http/log")
        m logger_output_dir o in
    (text, e, ap of_document f ∙ rw (dir, name) (rw output refl))
