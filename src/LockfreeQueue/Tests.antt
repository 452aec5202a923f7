-- ===== src/LockfreeQueue/Tests.antt =====
-- The queue on small rings.
use co_uring_web.Prelude.{ℕ, ◌<◌, true, false, [], ◌∷◌, some, ◌⊎◌, inl, inr, ◌≡◌, refl, arith}
use co_uring_web.LockfreeQueue.{Queue, create, push, pop}
use co_uring_web.LockfreeQueue.Sequential.{Holds, create-Holds, push_lem, pop_lem}
use co_uring_web.LockfreeQueue.Wrap.{pop-push-wrapped}

abbrev memory : ℕ → ℕ
memory i = 0

abbrev small : Queue ℕ
small = create 3 memory

small-Holds : Holds small []
small-Holds = create-Holds 3 memory (omega arith)

push_lem_example :
    ((1 ≡ small.capicity) × (push small 5 ≡ (false, small)))
    ⊎ ((1 < small.capicity) × ((push small 5).0 ≡ true) × Holds (push small 5).1 (5 ∷ []))
push_lem_example = push_lem small [] 5 small-Holds (unfold create in omega arith)

one-Holds : Holds (push small 5).1 (5 ∷ [])
unfolding create
one-Holds = elim (push_lem small [] 5 small-Holds (omega arith)) [
  | inl (e, _) ↦ absurd (omega arith)
  | inr (_, _, h) ↦ h
]

pop_lem_example : ((pop (push small 5).1).0 ≡ some 5) × Holds (pop (push small 5).1).1 []
pop_lem_example = pop_lem (push small 5).1 (5 ∷ []) one-Holds

-- The default ring, filled since before the counter came to 2 ^ 32.
abbrev wrapped : Queue ℕ
wrapped = record { capicity = 25600; write_index = 0; read_index = 4294963200; slots = memory }

pop-push-wrapped_example : ((push wrapped 5).0 ≡ true) × ((pop (push wrapped 5).1).0 ≡ some 5)
pop-push-wrapped_example = pop-push-wrapped wrapped 5 (omega arith) refl (omega arith) (omega arith)
