-- ===== src/Config/Tests.antt =====
-- A small configuration.
use co_uring_web.Json.Access.{find_entry}
use co_uring_web.Prelude.{some, none, inl, inr, [], Bytes, codes, bytes_eq, ◌≡◌, refl}
use co_uring_web.Json.{json_map, json_string, json_null, Entries, no_entries, entry}
use co_uring_web.Json.Dump.{dumped, dump}
use co_uring_web.Json.RoundTrip.Plain.{IsPlain}
use co_uring_web.Config.{Config, initialized, thrown, fault, init, init_prop, init_props}
use co_uring_web.Config.Written.{init-dump}

abbrev double : Bytes → Bytes
double text = text

abbrev entries : Entries Bytes
entries = entry (codes "http_dir") (json_string (codes "/s")) no_entries

entries-IsPlain : IsPlain (json_map entries)
unfolding IsPlain
entries-IsPlain = (
  tt,
  (
    (tt, tt),
    ((refl, (refl, (refl, (refl, (refl, (refl, (refl, (refl, tt)))))))), ((refl, (refl, tt)), tt)),
  ),
)

abbrev before : Config Bytes
before = record { map = no_entries; http_dir = []; logger_file_name = []; logger_output_dir = [] }

entries_http_dir : find_entry (codes "http_dir") entries ≡ some (json_string (codes "/s"))
unfolding bytes_eq
entries_http_dir = refl

entries_logger_file_name : find_entry (codes "logger_file_name") entries ≡ none
unfolding bytes_eq
entries_logger_file_name = refl

entries_logger_output_dir : find_entry (codes "logger_output_dir") entries ≡ none
unfolding bytes_eq
entries_logger_output_dir = refl

init-dump_example :
    (text : Bytes) × (dump double (json_map entries) 2 ≡ dumped text)
    × (init double (λ file. some text) before (codes "c")
        ≡ initialized (record {
          map = entries;
          http_dir = codes "/s";
          logger_file_name = codes "co_uring_http";
          logger_output_dir = codes "/home/zhouheng/C++/co_uring_http/log";
        }))
init-dump_example =
    init-dump double double 2 entries before b'c' [] (codes "/s") (codes "co_uring_http")
      (codes "/home/zhouheng/C++/co_uring_http/log") entries-IsPlain (inl entries_http_dir)
      (inr (entries_logger_file_name, refl)) (inr (entries_logger_output_dir, refl))

init_props-entries :
    init_props entries
    ≡ initialized (record {
      map = entries;
      http_dir = codes "/s";
      logger_file_name = codes "co_uring_http";
      logger_output_dir = codes "/home/zhouheng/C++/co_uring_http/log";
    })
unfolding init_props init_prop bytes_eq
init_props-entries = refl

abbrev broken : Entries Bytes
broken = entry (codes "http_dir") json_null no_entries

-- A value that is no string is taken for one.
init_props-broken : init_props broken ≡ fault
unfolding init_props init_prop bytes_eq
init_props-broken = refl

-- A file that is missing.
init_missing : init double (λ file. none) before (codes "c") ≡ thrown
unfolding init
init_missing = refl
