-- ===== src/Utils/Hash/Tests.antt =====
-- Some extensions.
use co_uring_web.Prelude.{◌%◌, arith, [], codes, ◌≡◌, refl}
use co_uring_web.Utils.Hash.{
  hash_mod, hash_from, string_hash, string_hash_constexpr, get_content_type,
}
use co_uring_web.Utils.Hash.Laws.{
  polynomial, string_hash-polynomial, string_hash-append, get_content_type-append,
}

known : get_content_type (codes "css") ≡ codes "text/css"
unfolding get_content_type string_hash string_hash_constexpr hash_from
known = refl

unknown : get_content_type (codes "pdf") ≡ []
unfolding get_content_type string_hash string_hash_constexpr hash_from
unknown = refl

string_hash-append_example : string_hash (codes "css`") ≡ string_hash (codes "css")
string_hash-append_example = string_hash-append (codes "css")

css_backquote : get_content_type (codes "css`") ≡ get_content_type (codes "css")
css_backquote = get_content_type-append (codes "css")

string_hash-polynomial_example : string_hash (codes "css") ≡ polynomial (codes "css") % hash_mod
string_hash-polynomial_example =
    string_hash-polynomial (codes "css")
      ((omega arith, omega arith), ((omega arith, omega arith), ((omega arith, omega arith), tt)))
