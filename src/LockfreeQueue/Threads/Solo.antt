-- ===== src/LockfreeQueue/Threads/Solo.antt =====
-- The steps of one call with no other thread between them are the call of LockfreeQueue.antt.
use co_uring_web.Prelude.{
  ℕ, false, List, [], ◌∷◌, ◌++◌, some, ◌==◌, if◌then◌else◌, ◌≡◌, refl, arith, Bool-cases, inl, inr,
  ==_self, ◌≢◌,
}
use mathlib.Core.Option
use co_uring_web.LockfreeQueue.{push, pop, is_full}
use co_uring_web.LockfreeQueue.Threads.{
  resting, waiting, System, Action, call_push, producer, consumer, step, run,
}

module _ {ℓ} {T : Type ℓ} where
  abbrev pub push_schedule : T → List (Action T)
  push_schedule v = call_push v ∷ producer ∷ producer ∷ producer ∷ []

  abbrev pub pop_schedule : ℕ → List (Action T)
  pop_schedule c = consumer c ∷ consumer c ∷ consumer c ∷ consumer c ∷ []

  -- The four steps of an undisturbed `push` have the effect of the call.
  pub run-push_schedule :
      (s : System T) (v : T)
      → s.producer ≡ resting
      → ((run s (push_schedule v)).queue ≡ (push s.queue v).1)
        × ((run s (push_schedule v)).pushed
            ≡ (if (push s.queue v).0 then s.pushed ++ v ∷ [] else s.pushed))
  unfolding run step push
  run-push_schedule s v e = elim (Bool-cases (is_full s.queue s.queue.write_index)) [
    | inl f ↦ rw e (rw f (refl, refl))
    | inr f ↦ rw e (rw f (refl, refl))
  ]

  -- The four steps of an undisturbed round of `pop` have the effect of the call, and record what it
  -- returns.
  pub run-pop_schedule :
      (s : System T) (c : ℕ)
      → s.consumers c ≡ waiting
      → s.queue.read_index ≢ s.queue.write_index
      → ((run s (pop_schedule c)).queue ≡ (pop s.queue).1)
        × (some ((run s (pop_schedule c)).popped)
            ≡ Option.map (λ v. s.popped ++ v ∷ []) (pop s.queue).0)
  unfolding run step pop
  run-pop_schedule s c e ne =
      let left : (s.queue.read_index == s.queue.write_index) ≡ false = ground arith in
      simp (e, ==_self, left) (refl, refl)
