-- ===== src/Timer/Order.antt =====
-- `TimerQueue::popExpired` appends the keys in the order of their deadlines.
use co_uring_web.Prelude.{
  ℕ, ◌-◌, ◌/◌, ◌≤◌, List, [], ◌∷◌, none, some, leb, ◌≡◌, arith, Bool-cases, inl, inr, dec_lt,
}
use co_uring_web.Prelude.OrdMap.{Map, find, IsSorted, Above, find-Above}
use co_uring_web.Prelude.Keys.{nat_key}
use co_uring_web.Timer.{TimerQueue, u32_mod, time_id, before_upper, pop_expired}
use co_uring_web.Timer.Inv.{IsValid}
use co_uring_web.Timer.Expiry.{deadline, values, expire_each-keys, Above-lower}

-- The number by which keys are put in order; 0 for a key that is not in the queue.
abbrev pub due : TimerQueue → ℕ → ℕ
due t key = elim (deadline key t) [ none ↦ 0 | some time ↦ time ]

abbrev DueFrom : (ℕ → ℕ) → ℕ → List ℕ → Type 0
DueFrom f lo [] = Unit
DueFrom f lo (k ∷ ks) = (lo ≤ f k) × DueFrom f (f k) ks

-- Each key is due no earlier than those before it.
abbrev pub InOrder : (ℕ → ℕ) → List ℕ → Type 0
InOrder f = DueFrom f 0

find_lower :
    (i id k : ℕ) (m : Map ℕ ℕ) → Above i m → find id m ≡ some k → i / u32_mod ≤ id / u32_mod
find_lower i id k m s f = elim (dec_lt id i) [
  | yes p ↦ absurd (cc (f, find-Above id m (Above-lower id i m (omega arith) s)))
  | no p ↦ omega arith
]

DueFrom-before_upper :
    (flag low : ℕ) (m : Map ℕ ℕ) (f : ℕ → ℕ)
    → IsSorted m
    → ((id k : ℕ) → find id m ≡ some k → (f k ≡ id / u32_mod) × (low ≤ id / u32_mod))
    → DueFrom f low (values (before_upper flag m))
unfolding before_upper
DueFrom-before_upper flag low [] f s g = tt
DueFrom-before_upper flag low ((i, k) ∷ m) f s g =
    let first = g i k (unfold find in ground arith) in
    let rest = DueFrom-before_upper flag (i / u32_mod) m f s.1 (λ id k' e. (
      (g id k' (unfold find in ground (arith, find-Above i m s.0))).0,
      find_lower i id k' m s.0 e,
    )) in
    elim (Bool-cases (leb i flag)) [
      | inl e ↦ rw e (rw first.0 first.1, rw first.0 rest)
      | inr e ↦ rw e tt
    ]

-- If the two maps are in step, the keys that `popExpired` appends come in the order of their deadlines.
pub pop_expired-InOrder :
    (t : TimerQueue) (now : ℕ) → IsValid t → InOrder (due t) (pop_expired now t []).0
unfolding pop_expired
pop_expired-InOrder t now v =
    rw (expire_each-keys (before_upper (time_id now (u32_mod - 1)) t.timeid2key) t.key2timeid []) (
      DueFrom-before_upper (time_id now (u32_mod - 1)) 0 t.timeid2key (due t) v.sorted
        (λ id k e. (ground (arith, v.back id k), omega arith)))
