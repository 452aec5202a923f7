-- ===== src/Http/Response/Tests.antt =====
-- Small responses.
use co_uring_web.Prelude.{
  ◌≤◌, [], ◌∷◌, ◌++◌, Bytes, codes, drop, replicate, inr, ◌≡◌, true, false, refl, arith,
}
use co_uring_web.Utils.Decimal.{to_string}
use co_uring_web.Http.{v9, v10, v11}
use co_uring_web.Http.Status.{get_status_text, has_text}
use co_uring_web.Http.Response.{
  HttpResponse, get_raw_data_size_without_body, to_raw_data, to_raw_data_without_body, write_status,
}
use co_uring_web.Http.Response.Buffer.{ok, fault, copy, copy_front, put_at}
use co_uring_web.Http.Response.Render.{render_head}
use co_uring_web.Http.Response.Convert.{to_raw_data-eq, to_raw_data_without_body-eq}
use co_uring_web.Http.Response.Errors.{to_raw_data_unknown}

abbrev page : HttpResponse
page = record {
  version = v10;
  status_code = 404;
  headers = (codes "server", codes "x") ∷ [];
  body = codes "hi";
}

page-has_text : has_text 404 ≡ true
unfolding has_text
page-has_text = refl

to_raw_data-eq_example : to_raw_data page ≡ ok (render_head page ++ codes "hi")
to_raw_data-eq_example = to_raw_data-eq page tt page-has_text

render_head-page : render_head page ≡ codes "HTTP/1.0 404 Not Found\r\nserver: x\r\n\r\n"
unfolding render_head to_string get_status_text
render_head-page = refl

abbrev room : Bytes
room = replicate 50 0

page_fits : get_raw_data_size_without_body page ≤ 50
unfolding get_raw_data_size_without_body get_status_text
page_fits = omega arith

to_raw_data_without_body-eq_example :
    to_raw_data_without_body page room
    ≡ ok (render_head page ++ drop (get_raw_data_size_without_body page) room)
to_raw_data_without_body-eq_example =
    to_raw_data_without_body-eq page room tt page-has_text page_fits

abbrev strange : HttpResponse
strange = record { version = v11; status_code = 299; headers = []; body = [] }

strange-has_text : has_text 299 ≡ false
unfolding has_text
strange-has_text = refl

to_raw_data_unknown_example : to_raw_data strange ≡ ok []
to_raw_data_unknown_example = to_raw_data_unknown strange (inr (tt, omega arith, strange-has_text))

-- The branch of version 0.9 overwrites the start of the line, and leaves its own place empty.
version_0_9 :
    to_raw_data (record { version = v9; status_code = 200; headers = []; body = [] })
    ≡ ok (codes "0.9P/" ++ (0 ∷ 0 ∷ 0 ∷ codes " 200 OK\r\n\r\n"))
unfolding to_raw_data get_status_text copy copy_front put_at to_string write_status
version_0_9 = refl

-- The first status code, C000, has one digit, and three bytes of it are copied.
status_000 :
    to_raw_data (record { version = v10; status_code = 0; headers = []; body = [] }) ≡ fault
unfolding to_raw_data get_status_text copy put_at to_string write_status
status_000 = refl
