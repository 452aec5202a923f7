-- ===== src/Timer/Expiry.antt =====
-- `TimerQueue::popExpired` pops exactly the keys whose deadline, in 32 bits, has passed.
use co_uring_web.Prelude.{
  ℕ, ◌+◌, ◌-◌, ◌*◌, ◌%◌, ◌<◌, ◌≤◌, Bool, false, List, [], ◌∷◌, ◌++◌, Option, none, some, leb, ◌==◌,
  if◌then◌else◌, ◌≡◌, refl, arith, Option-cases, inl, inr, append_assoc, append-nil, ◌&&◌, sym, ◌∙◌,
  ap,
}
use co_uring_web.Prelude.OrdMap.{Map, find, erase, Above, IsSorted, find-Above, find-erase}
use co_uring_web.Prelude.Keys.{nat_key}
use co_uring_web.Timer.{
  TimerQueue, u32_mod, time_id, before_upper, from_upper, expire_each, pop_expired,
}
use co_uring_web.Timer.Inv.{IsValid, time_id_sum}

abbrev pub values : Map ℕ ℕ → List ℕ
values [] = []
values ((_, key) ∷ m) = key ∷ values m

abbrev pub count : ℕ → List ℕ → ℕ
count j [] = 0
count j (x ∷ xs) = (if x == j then 1 else 0) + count j xs

-- The 32-bit deadline of a key, if it is in the queue.
abbrev pub deadline : ℕ → TimerQueue → Option ℕ
deadline key t = elim (find key t.key2timeid) [ none ↦ none | some (time, _) ↦ some time ]

-- The loop appends the keys in the order of the entries, and erases each.
pub expire_each-keys :
    (m : Map ℕ ℕ) (k2t : Map ℕ (ℕ × ℕ)) (keys : List ℕ)
    → (expire_each m k2t keys).0 ≡ keys ++ values m
unfolding expire_each
expire_each-keys [] k2t keys = sym (append-nil keys)
expire_each-keys ((id, k) ∷ m) k2t keys =
    expire_each-keys m (erase k k2t) (keys ++ k ∷ []) ∙ append_assoc keys (k ∷ []) (values m)

pub find-expire_each :
    (m : Map ℕ ℕ) (k2t : Map ℕ (ℕ × ℕ)) (keys : List ℕ) (j : ℕ)
    → find j (expire_each m k2t keys).1 ≡ (if count j (values m) == 0 then find j k2t else none)
unfolding expire_each
find-expire_each [] k2t keys j = refl
find-expire_each ((id, k) ∷ m) k2t keys j =
    ground (arith, find-expire_each m (erase k k2t) (keys ++ k ∷ []) j, find-erase j k k2t)

Above-from_upper : (a flag : ℕ) (m : Map ℕ ℕ) → Above a m → Above a (from_upper flag m)
unfolding from_upper
Above-from_upper a flag [] s = tt
Above-from_upper a flag ((id, k) ∷ m) s = ground (arith, Above-from_upper a flag m)

pub IsSorted-from_upper : (flag : ℕ) (m : Map ℕ ℕ) → IsSorted m → IsSorted (from_upper flag m)
unfolding from_upper
IsSorted-from_upper flag [] s = tt
IsSorted-from_upper flag ((id, k) ∷ m) s = ground (arith, IsSorted-from_upper flag m)

pub Above-lower : (a b : ℕ) (m : Map ℕ ℕ) → a ≤ b → Above b m → Above a m
Above-lower a b [] h s = tt
Above-lower a b ((id, k) ∷ m) h s = (ground arith, Above-lower a b m h s.1)

pub find-from_upper :
    (flag id : ℕ) (m : Map ℕ ℕ)
    → IsSorted m
    → find id (from_upper flag m) ≡ (if leb id flag then none else find id m)
unfolding from_upper find
find-from_upper flag id [] s = ground arith
find-from_upper flag id ((i, k) ∷ m) s =
    ground
      (arith, find-from_upper flag id m, λ (h : id ≤ i). find-Above id m (Above-lower id i m h s.0))

abbrev holds : ℕ → Option ℕ → Bool
holds j none = false
holds j (some k) = k == j

-- How often key `j` with this id stands in `m` before the bound.
abbrev hits : ℕ → ℕ → Map ℕ ℕ → Option ℕ → ℕ
hits flag j m none = 0
hits flag j m (some id) = if leb id flag && holds j (find id m) then 1 else 0

pub ids_of_tail :
    (i k : ℕ) (m : Map ℕ ℕ) (id_of : ℕ → Option ℕ)
    → Above i m
    → ((id k' : ℕ) → find id ((i, k) ∷ m) ≡ some k' → id_of k' ≡ some id)
    → (id k' : ℕ) → find id m ≡ some k'
    → id_of k' ≡ some id
unfolding find
ids_of_tail i k m id_of s h id k' f = h id k' (ground (arith, find-Above i m s))

hits-cons :
    (flag j i k : ℕ) (m : Map ℕ ℕ) (o : Option ℕ)
    → Above i m
    → (k ≡ j → o ≡ some i)
    → hits flag j ((i, k) ∷ m) o
      ≡ (if leb i flag then (if k == j then 1 else 0) + hits flag j m o else 0)
unfolding find
hits-cons flag j i k m none s h = ground (arith, h)
hits-cons flag j i k m (some id) s h =
    ground (arith, h, find-Above i m s, λ (l : id ≤ i). find-Above id m (Above-lower id i m l s))

-- If each key has one id, the keys before the bound are those whose id is.
count-before_upper :
    (flag j : ℕ) (m : Map ℕ ℕ) (id_of : ℕ → Option ℕ)
    → IsSorted m
    → ((id k : ℕ) → find id m ≡ some k → id_of k ≡ some id)
    → count j (values (before_upper flag m)) ≡ hits flag j m (id_of j)
unfolding before_upper
count-before_upper flag j [] id_of s h = elim (Option-cases (id_of j)) [
  | inl e ↦ rw e
  | inr (id, e) ↦ rw e (unfold find in ground arith)
]
count-before_upper flag j ((i, k) ∷ m) id_of s h =
    let first : k ≡ j → id_of j ≡ some i = λ e. rw (← e) (h i k (unfold find in ground arith)) in
    ground (
      arith,
      hits-cons flag j i k m (id_of j) s.0 first,
      count-before_upper flag j m id_of s.1 (ids_of_tail i k m id_of s.0 h),
    )

-- The id of each key, from the other map.
abbrev id_in : TimerQueue → ℕ → Option ℕ
id_in t k = elim (find k t.key2timeid) [ none ↦ none | some (e, i) ↦ some (e * u32_mod + i) ]

-- Whether `popExpired` at time `now` takes a key with this deadline.
abbrev pub is_expired : ℕ → Option ℕ → Bool
is_expired now none = false
is_expired now (some time) = leb time (now % u32_mod)

pub count_popped :
    (t : TimerQueue) (now j : ℕ)
    → IsValid t
    → count j (values (before_upper (time_id now (u32_mod - 1)) t.timeid2key))
      ≡ (if is_expired now (deadline j t) then 1 else 0)
count_popped t now j v =
    count-before_upper (time_id now (u32_mod - 1)) j t.timeid2key (id_in t) v.sorted
      (λ id k f. ground (arith, v.back id k))
    ∙ by_deadline (find j t.key2timeid) (λ e i. v.linked j e i)
  where
    by_deadline :
        (o : Option (ℕ × ℕ))
        → ((e i : ℕ)
            → o ≡ some (e, i)
            → (find (e * u32_mod + i) t.timeid2key ≡ some j) × (e < u32_mod) × (i < u32_mod))
        → hits
            (time_id now (u32_mod - 1))
            j
            t.timeid2key
            (elim o [ none ↦ none | some (e, i) ↦ some (e * u32_mod + i) ])
          ≡ (if is_expired now (elim o [ none ↦ none | some (e, i) ↦ some e ]) then 1 else 0)
    by_deadline none h = refl
    by_deadline (some (e, i)) h =
        ground (arith, h e i refl, time_id_sum now (u32_mod - 1) (omega arith))

-- If the two maps are in step, `popExpired` appends each key whose deadline is not above the low 32 bits of
-- the clock once, and no other key.
pub count-pop_expired :
    (t : TimerQueue) (now j : ℕ)
    → IsValid t
    → count j (pop_expired now t []).0 ≡ (if is_expired now (deadline j t) then 1 else 0)
unfolding pop_expired
count-pop_expired t now j v =
    ap (count j)
      (expire_each-keys (before_upper (time_id now (u32_mod - 1)) t.timeid2key) t.key2timeid [])
    ∙ count_popped t now j v
