-- ===== src/Http/Status.antt =====
-- `enum HttpResponseStatusCodes` and `getStatusText`. A code is its number: a value of the enum type
-- that is no enumerator is possible, and takes the `default` branch.
use co_uring_web.Prelude.{
  ℕ, ◌<◌, ◌≤◌, Bool, true, false, List, [], ◌∷◌, Bytes, codes, ◌==◌, leb, ltb, ◌&&◌, not, drop, ap,
  sym, ◌∙◌, ◌||◌, if◌then◌else◌, ◌≡◌, ◌↔◌, refl, arith,
}

-- The enumerators, in the order of their declaration.
abbrev pub status_codes : List ℕ
status_codes =
    0 ∷ 100 ∷ 101 ∷ 102 ∷ 103 ∷ 200 ∷ 201 ∷ 202 ∷ 203 ∷ 204 ∷ 205 ∷ 206 ∷ 207 ∷ 208 ∷ 226 ∷ 300
    ∷ 301 ∷ 302 ∷ 303 ∷ 304 ∷ 305 ∷ 306 ∷ 307 ∷ 308 ∷ 400 ∷ 401 ∷ 402 ∷ 403 ∷ 404 ∷ 405 ∷ 406 ∷ 407
    ∷ 408 ∷ 409 ∷ 410 ∷ 411 ∷ 412 ∷ 413 ∷ 414 ∷ 415 ∷ 416 ∷ 417 ∷ 418 ∷ 421 ∷ 422 ∷ 423 ∷ 424 ∷ 425
    ∷ 426 ∷ 428 ∷ 429 ∷ 431 ∷ 451 ∷ 500 ∷ 501 ∷ 502 ∷ 503 ∷ 504 ∷ 505 ∷ 506 ∷ 507 ∷ 508 ∷ 510 ∷ 511
    ∷ []

-- The cases of the switch.
abbrev status_texts : List (ℕ × Bytes)
status_texts =
    (100, codes "Continue")
    ∷ (101, codes "Switching Protocols")
    ∷ (102, codes "Processing")
    ∷ (103, codes "Early Hints")
    ∷ (200, codes "OK")
    ∷ (201, codes "Created")
    ∷ (202, codes "Accepted")
    ∷ (203, codes "Non-Authoritative Information")
    ∷ (204, codes "No Content")
    ∷ (205, codes "Reset Content")
    ∷ (206, codes "Partial Content")
    ∷ (207, codes "Multi-Status")
    ∷ (208, codes "Already Reported")
    ∷ (226, codes "IM Used (RFC 3229)")
    ∷ (300, codes "Multiple Choices")
    ∷ (301, codes "Moved Permanently")
    ∷ (302, codes "Moved temporarily")
    ∷ (303, codes "See Other")
    ∷ (304, codes "Not Modified")
    ∷ (305, codes "Use Proxy")
    ∷ (306, codes "Switch Proxy")
    ∷ (307, codes "Temporary Redirect")
    ∷ (308, codes "Permanent Redirect")
    ∷ (400, codes "Bad Request")
    ∷ (401, codes "Unauthorized")
    ∷ (402, codes "Payment Required")
    ∷ (403, codes "Forbidden")
    ∷ (404, codes "Not Found")
    ∷ (405, codes "Method Not Allowed")
    ∷ (406, codes "Not Acceptable")
    ∷ (407, codes "Proxy Authentication Required")
    ∷ (408, codes "Request Timeout")
    ∷ (409, codes "Conflict")
    ∷ (410, codes "Gone")
    ∷ (411, codes "Length Required")
    ∷ (412, codes "Precondition Failed")
    ∷ (413, codes "Payload Too Large")
    ∷ (414, codes "URI Too Long")
    ∷ (415, codes "Unsupported Media Type")
    ∷ (416, codes "Range Not Satisfiable")
    ∷ (417, codes "Expectation Failed")
    ∷ (418, codes "I'm a teapot")
    ∷ (421, codes "Misdirected Request")
    ∷ (422, codes "Unprocessable Entity")
    ∷ (423, codes "Locked")
    ∷ (424, codes "Failed Dependency")
    ∷ (425, codes "Too Early")
    ∷ (426, codes "Upgrade Required")
    ∷ (428, codes "Precondition Required")
    ∷ (429, codes "Too Many Requests")
    ∷ (431, codes "Request Header Fields Too Large")
    ∷ (451, codes "Unavailable For Legal Reasons")
    ∷ (500, codes "Internal Server Error")
    ∷ (501, codes "Not Implemented")
    ∷ (502, codes "Bad Gateway")
    ∷ (503, codes "Service Unavailable")
    ∷ (504, codes "Gateway Timeout")
    ∷ (505, codes "HTTP Version Not Supported")
    ∷ (506, codes "Variant Also Negotiates")
    ∷ (507, codes "Insufficient Storage")
    ∷ (508, codes "Loop Detected")
    ∷ (510, codes "Not Extended")
    ∷ (511, codes "Network Authentication Required")
    ∷ []

abbrev case_of : ℕ → List (ℕ × Bytes) → Bytes
case_of code [] = []
case_of code ((c, text) ∷ cases) = if c == code then text else case_of code cases

unfoldable pub get_status_text : ℕ → Bytes
get_status_text code = case_of code status_texts

abbrev contains : List ℕ → ℕ → Bool
contains [] code = false
contains (c ∷ cs) code = c == code || contains cs code

abbrev keys : List (ℕ × Bytes) → List ℕ
keys [] = []
keys ((c, _) ∷ cases) = c ∷ keys cases

abbrev is_nil : Bytes → Bool
is_nil [] = true
is_nil (_ ∷ _) = false

abbrev none_empty : List (ℕ × Bytes) → Bool
none_empty [] = true
none_empty ((_, text) ∷ cases) = if is_nil text then false else none_empty cases

case_of-is_nil :
    (code : ℕ) (cases : List (ℕ × Bytes))
    → none_empty cases ≡ true
    → is_nil (case_of code cases) ≡ not (contains (keys cases) code)
case_of-is_nil code [] h = refl
case_of-is_nil code ((c, text) ∷ cases) h = ground (arith, case_of-is_nil code cases)

-- Whether the number is an enumerator other than the first, C000.
unfoldable pub has_text : ℕ → Bool
has_text code = contains (drop 1 status_codes) code

status_texts-keys : keys status_texts ≡ drop 1 status_codes
status_texts-keys = refl

is_nil-get_status_text : (code : ℕ) → is_nil (get_status_text code) ≡ not (has_text code)
unfolding get_status_text has_text
is_nil-get_status_text code = case_of-is_nil code status_texts refl

is_nil_iff : (l : Bytes) → (is_nil l ≡ true) ↔ (l ≡ [])
is_nil_iff [] = (λ _. refl, λ _. refl)
is_nil_iff (c ∷ cs) = (λ e. absurd (cc e), λ e. absurd (cc e))

-- `getStatusText` gives a text to every enumerator but the first, C000, and to no other number.
pub get_status_text_iff : (code : ℕ) → (get_status_text code ≡ []) ↔ (has_text code ≡ false)
get_status_text_iff code = (
  λ e. not_true (sym (is_nil-get_status_text code) ∙ (is_nil_iff (get_status_text code)).1 e),
  λ e. (is_nil_iff (get_status_text code)).0 (is_nil-get_status_text code ∙ ap not e),
)
  where
    not_true : {b : Bool} → not b ≡ true → b ≡ false
    not_true h = ground arith

abbrev all_three_digits : List ℕ → Bool
all_three_digits [] = true
all_three_digits (c ∷ cs) = leb 100 c && ltb c 1000 && all_three_digits cs

contains-three_digits :
    (l : List ℕ) (code : ℕ)
    → all_three_digits l ≡ true
    → contains l code ≡ true
    → (100 ≤ code) × (code < 1000)
contains-three_digits [] code h e = absurd (cc e)
contains-three_digits (c ∷ cs) code h e = ground (arith, contains-three_digits cs code)

pub has_text_bounds : (code : ℕ) → has_text code ≡ true → (100 ≤ code) × (code < 1000)
unfolding has_text
has_text_bounds code = contains-three_digits (drop 1 status_codes) code refl
