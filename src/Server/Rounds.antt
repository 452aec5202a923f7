-- ===== src/Server/Rounds.antt =====
-- What a round of a worker's loop does.
use co_uring_web.Prelude.{
  ℕ, zero, suc, ◌<◌, Option, some, List, [], ◌∷◌, length, ◌≡◌, refl, sym, ap, ◌∙◌, arith,
}
use co_uring_web.Prelude.Options.{◌>>=◌, >>=-ext, >>=-assoc}
use co_uring_web.LockfreeQueue.{Queue, pop}
use co_uring_web.LockfreeQueue.Sequential.{Holds, pop_lem}
use co_uring_web.Server.{SchedulerImpl, drain, resume_each, round}

-- The queue behind as many calls of `pop`, and one more.
abbrev after {ℓ} : {T : Type ℓ} → List T → Queue T → Queue T
after [] q = (pop q).1
after (_ ∷ xs) q = after xs (pop q).1

after-Holds {ℓ} : {T : Type ℓ} (xs : List T) (q : Queue T) → Holds q xs → Holds (after xs q) []
after-Holds [] q h = (pop_lem q [] h).1
after-Holds (x ∷ xs) q h = after-Holds xs (pop q).1 (pop_lem q (x ∷ xs) h).1

-- One after the other, each in the state that the one before it leaves.
abbrev pub one_by_one {ℓ} : {A : Type ℓ} {S : Type 0} → (A → S → Option S) → List A → S → Option S
one_by_one f [] s = some s
one_by_one f (x ∷ xs) s = f x s >>= λ s'. one_by_one f xs s'

module _ {ℓ} {S : Type 0} {T : Type ℓ} (impl : SchedulerImpl S) (func : T → S → Option S)
    (resume : ℕ → S → Option S) where
  resume_each-eq :
      (handles : List ℕ) (s : S)
      → resume_each impl func resume handles s ≡ one_by_one resume handles s
  unfolding resume_each
  resume_each-eq [] s = refl
  resume_each-eq (handle ∷ handles) s =
      >>=-ext (resume handle s) (resume_each impl func resume handles) (one_by_one resume handles)
        (resume_each-eq handles)

  drain-eq :
      (xs : List T) (q : Queue T) (s : S) (fuel : ℕ)
      → Holds q xs
      → length xs < fuel
      → drain impl func resume fuel q s ≡ (one_by_one func xs s >>= λ s'. some (after xs q, s'))
  unfolding drain
  drain-eq xs q s zero h l = absurd (omega arith)
  drain-eq [] q s (suc fuel) h l = rw ((pop_lem q [] h).0, drain) refl
  drain-eq (x ∷ xs) q s (suc fuel) h l =
      let (e, h') = pop_lem q (x ∷ xs) h in
      let l' : length xs < fuel = omega (arith, l) in
      let each =
        >>=-ext (func x s) (drain impl func resume fuel (pop q).1) _
          (λ s'. drain-eq xs (pop q).1 s' fuel h' l') in
      rw (e, drain)
        (each
          ∙ sym (>>=-assoc (func x s) (one_by_one func xs) (λ s'. some (after xs (pop q).1, s'))))

  -- A round over a queue whose counters do not wrap gives every connection of the queue to a
  -- coroutine, in the order of arrival, leaves the queue empty, polls once, and resumes every ready
  -- handle in its order.
  pub round_serves_each :
      (now : ℕ) (q : Queue T) (s : S) (xs : List T)
      → Holds q xs
      → (q' : Queue T) × Holds q' []
        × (round impl func resume now q s ≡ (
            one_by_one func xs s >>= λ s1. impl.poll now s1 >>= λ (s2, handles).
            one_by_one resume handles s2 >>= λ s3. some (q', s3)))
  unfolding round
  round_serves_each now q s xs h =
      let poll_then : Queue T × S → Option (Queue T × S) = λ (q', s1).
        impl.poll now s1 >>= λ (s2, handles).
        resume_each impl func resume handles s2 >>= λ s3. some (q', s3) in
      (
        after xs q,
        after-Holds xs q h,
        ap (λ o. o >>= poll_then) (drain-eq xs q s (suc q.capicity) h (omega (arith, h.room)))
            ∙ >>=-assoc (one_by_one func xs s) (λ s'. some (after xs q, s')) poll_then
            ∙ >>=-ext (one_by_one func xs s) (λ s1. poll_then (after xs q, s1)) _
                (λ s1. >>=-ext (impl.poll now s1) _ _ (λ (s2, handles).
                  ap (λ o. o >>= λ s3. some (after xs q, s3)) (resume_each-eq handles s2))),
      )
