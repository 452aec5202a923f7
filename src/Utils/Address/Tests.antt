-- ===== src/Utils/Address/Tests.antt =====
-- An address of loopback.
use co_uring_web.Prelude.{[], ◌∷◌, codes, ◌≡◌, refl, arith}
use co_uring_web.Utils.Decimal.{to_string, digits_of}
use co_uring_web.Http.Response.Buffer.{ok}
use co_uring_web.Utils.Address.{addr2str}
use co_uring_web.Utils.Address.Dotted.{joined, addr2str-joined}

addr2str-joined_example : addr2str (127 ∷ 0 ∷ 0 ∷ 1 ∷ []) ≡ ok (joined 127 (0 ∷ 0 ∷ 1 ∷ []))
addr2str-joined_example =
    addr2str-joined 127 0 0 1 (omega arith) (omega arith) (omega arith) (omega arith)

loopback : joined 127 (0 ∷ 0 ∷ 1 ∷ []) ≡ codes "127.0.0.1"
unfolding to_string digits_of
loopback = refl
