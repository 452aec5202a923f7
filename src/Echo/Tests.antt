-- ===== src/Echo/Tests.antt =====
-- A client that sends "ab", "c" and nothing more. The state is what is still to come.
use co_uring_web.Prelude.{some, none, List, [], ◌∷◌, Bytes, codes, ◌≡◌, refl}
use co_uring_web.Service.{Received, received, nothing, Kernel}
use co_uring_web.Service.Ledger.{with_ledger}
use co_uring_web.Echo.{ended, echo, echo_round}
use co_uring_web.Echo.Stream.{with_transcript, echoing, Repeats, echo-Repeats}

abbrev next_read : List Bytes → Received × List Bytes
next_read [] = (nothing, [])
next_read (bytes ∷ rest) = (received bytes, rest)

abbrev kernel : Kernel (List Bytes)
kernel = record {
  async_read = λ w fd size timeout. next_read w;
  async_write = λ w fd bytes timeout. w;
  open_file = λ w path. (none, w);
  fstat = λ w fd. (none, w);
  read = λ w fd size. (none, w);
  close = λ w fd. w;
}

abbrev to_come : List Bytes
to_come = codes "ab" ∷ codes "c" ∷ []

echo-Repeats_example :
    Repeats kernel 3 (
      echo (with_ledger (with_transcript kernel)) 3 5 (echoing kernel 3 to_come [] (some (3 ∷ []))))
echo-Repeats_example = echo-Repeats kernel 3 5 to_come []

echo_all :
    echo (with_ledger (with_transcript kernel)) 3 5 (echoing kernel 3 to_come [] (some (3 ∷ [])))
    ≡ ended (echoing kernel 3 [] (codes "abc") (some []))
unfolding echo echo_round
echo_all = refl
