-- ===== src/Logger/Tests.antt =====
-- Small lines, and a long one.
use co_uring_web.Prelude.{[], ◌∷◌, ◌++◌, Bytes, codes, replicate, ◌≡◌, refl, arith}
use co_uring_web.Http.Response.Buffer.{ok, fault}
use co_uring_web.Logger.{view, num, character, line}
use co_uring_web.Logger.Line.{line-eq, line-fault}

abbrev memory : Bytes
memory = replicate 512 0

abbrev head : Bytes
head = codes "INFO "

abbrev long_text : Bytes
long_text = replicate 600 b'x'

line-eq_example :
    line memory head (view (codes "fd ") ∷ num (codes "12") ∷ character b'!' ∷ [])
    ≡ ok (codes "INFO fd 12!" ++ 10 ∷ [])
line-eq_example =
    line-eq memory head (view (codes "fd ") ∷ num (codes "12") ∷ character b'!' ∷ []) refl
      (omega arith)

line-fault_example : line memory head (view long_text ∷ []) ≡ fault
line-fault_example = line-fault memory head long_text refl (omega arith) (omega arith)
