-- ===== src/LockfreeQueue/Wrap.antt =====
-- The counters wrap at 2 ^ 32, which is no multiple of the default capacity: the slot of count 0 is
-- then reused while an element may still lie in it.
use co_uring_web.Prelude.{◌%◌, ◌<◌, true, false, some, ◌==◌, ◌≡◌, ◌≢◌, refl, ap, arith}
use native.Mathlib.Nat.{mod-eq_of_lt, zero-mod}
use co_uring_web.LockfreeQueue.{Queue, is_full, push, pop}

module _ {ℓ} {T : Type ℓ} where
  -- In a queue of more than one slot that is not empty, with the write counter just wrapped to 0 and the
  -- oldest element in slot 0, `push` overwrites that element: it succeeds, and the next `pop` returns the new
  -- element in place of the oldest.
  pub pop-push-wrapped :
      (q : Queue T) (v : T)
      → 1 < q.capicity
      → q.write_index ≡ 0
      → q.read_index ≢ 0
      → q.read_index % q.capicity ≡ 0
      → ((push q v).0 ≡ true) × ((pop (push q v).1).0 ≡ some v)
  unfolding push pop
  pop-push-wrapped q v big w ne slot =
      let room : is_full q 0 ≡ false = ground (arith, mod-eq_of_lt big) in
      let left : (q.read_index == 1) ≡ false =
        ground (arith, mod-eq_of_lt big, λ (e : q.read_index ≡ 1). ap (λ t. t % q.capicity) e) in
      rw (w, room, left, slot, zero-mod) (refl, refl)
