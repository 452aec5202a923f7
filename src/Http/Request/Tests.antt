-- ===== src/Http/Request/Tests.antt =====
-- `fromRawData` on whole requests.
use co_uring_web.Prelude.{[], ◌∷◌, codes, none, some, ◌≡◌, refl, bytes_eq}
use co_uring_web.Prelude.OrdMap.{insert}
use co_uring_web.Prelude.Keys.{bytes_key, bytes_lt}
use co_uring_web.Http.{get, v11}
use co_uring_web.Http.Request.{is_at, from_raw_data}
use co_uring_web.Http.Request.Grammar.{Field, Message, render, IsField, IsMessage, request_of}
use co_uring_web.Http.Request.Accept.{from_raw_data-render}
use co_uring_web.Http.Request.Sound.{from_raw_data-eq}

abbrev host : Field
host = record { name = codes "Host"; blanks = 1; value = codes "a.b" }

abbrev again : Field
again = record { name = codes "Host"; blanks = 0; value = [] }

abbrev message : Message
message = record {
  method = get;
  url = codes "/a";
  version = v11;
  fields = host ∷ again ∷ [];
  body = codes "xy";
}

host-IsField : IsField host
unfolding is_at bytes_eq
host-IsField = record {
  name_absent = refl;
  name_not_end = refl;
  value_absent = refl;
  value_solid = refl;
}

again-IsField : IsField again
unfolding is_at bytes_eq
again-IsField = record {
  name_absent = refl;
  name_not_end = refl;
  value_absent = refl;
  value_solid = refl;
}

message-IsMessage : IsMessage message
message-IsMessage = record {
  known_method = tt;
  url_absent = refl;
  known_version = tt;
  all_fields = (host-IsField, (again-IsField, tt));
}

from_raw_data-render_example : from_raw_data (render message) ≡ some (request_of message)
from_raw_data-render_example = from_raw_data-render message message-IsMessage

-- The first of two lines with one name counts.
request_of-message : (request_of message).headers ≡ (codes "Host", codes "a.b") ∷ []
unfolding request_of insert bytes_lt bytes_eq
request_of-message = refl

from_raw_data-eq_example :
    (m : Message) × IsMessage m × (render message ≡ render m) × (request_of message ≡ request_of m)
from_raw_data-eq_example =
    from_raw_data-eq (render message) (from_raw_data-render message message-IsMessage)

-- A URL without its version is refused.
no_version_refused : from_raw_data (codes "GET /a\r\n\r\n") ≡ none
unfolding from_raw_data bytes_eq is_at
no_version_refused = refl
