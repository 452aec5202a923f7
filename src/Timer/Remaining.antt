-- ===== src/Timer/Remaining.antt =====
-- What `TimerQueue::popExpired` leaves, and the deadlines after `add` and `remove`.
use co_uring_web.Prelude.{
  ℕ, ◌+◌, ◌*◌, ◌%◌, ◌/◌, ◌<◌, ◌-◌, Bool, true, false, not, ◌&&◌, [], Option, none, some, ◌==◌,
  if◌then◌else◌, ◌≡◌, refl, arith, Option-cases, ◌⊎◌, inl, inr,
}
use co_uring_web.Prelude.OrdMap.{find, find-insert_new, find-erase}
use co_uring_web.Prelude.Keys.{nat_key}
use co_uring_web.Timer.{TimerQueue, u32_mod, time_id, add, remove, before_upper, pop_expired}
use co_uring_web.Timer.Inv.{IsValid, time_id_sum, add_new, add_taken, remove_found, remove_absent}
use co_uring_web.Timer.Expiry.{
  deadline, is_expired, count_popped, find-expire_each, find-from_upper, IsSorted-from_upper,
}

abbrev pub is_none {ℓ} : {A : Type ℓ} → Option A → Bool
is_none none = true
is_none (some _) = false

-- `add` succeeds exactly at a key with no deadline, sets that deadline and no other, and a refused
-- call changes nothing.
pub deadline-add :
    (t : TimerQueue) (key time j : ℕ)
    → let (added, t') = add t key time in
      (added ≡ is_none (deadline key t))
      × (deadline j t' ≡ (if added && key == j then some (time % u32_mod) else deadline j t))
      × ((added ≡ true) ⊎ (t' ≡ t))
deadline-add t key time j = elim (Option-cases (find key t.key2timeid)) [
  | inl e ↦ rw (add_new t key time e) (
    ground (arith, e),
    ground (arith, e, find-insert_new j key (time % u32_mod, t.index) t.key2timeid e),
    inl refl,
  )
  | inr (p, e) ↦ rw (add_taken t key time e) (ground (arith, e), refl, inr refl)
]

-- `remove` succeeds exactly at a key with a deadline, and takes away that deadline and no other.
pub deadline-remove :
    (t : TimerQueue) (key j : ℕ)
    → IsValid t
    → let (removed, t') = remove t key in
      (removed ≡ not (is_none (deadline key t)))
      × (deadline j t' ≡ (if key == j then none else deadline j t))
deadline-remove t key j v = elim (Option-cases (find key t.key2timeid)) [
  | inl e ↦ rw (remove_absent t key e) (ground (arith, e), ground (arith, e))
  | inr ((time, i), e) ↦
      rw (remove_found t key time i v e)
        (ground (arith, e), ground (arith, find-erase j key t.key2timeid))
]

-- A key that has not expired keeps its deadline, an expired one has none.
pub deadline-pop_expired :
    (t : TimerQueue) (now j : ℕ)
    → IsValid t
    → deadline j (pop_expired now t []).1
      ≡ (if is_expired now (deadline j t) then none else deadline j t)
unfolding pop_expired
deadline-pop_expired t now j v = ground (
  arith,
  find-expire_each (before_upper (time_id now (u32_mod - 1)) t.timeid2key) t.key2timeid [] j,
  count_popped t now j v,
)

module _ (t : TimerQueue) (now : ℕ) (v : IsValid t) where
  left_linked :
      (k e i : ℕ)
      → find k (pop_expired now t []).1.key2timeid ≡ some (e, i)
      → (find (e * u32_mod + i) (pop_expired now t []).1.timeid2key ≡ some k)
        × (e < u32_mod)
        × (i < u32_mod)
  unfolding pop_expired
  left_linked k e i h = ground (
    arith,
    find-expire_each (before_upper (time_id now (u32_mod - 1)) t.timeid2key) t.key2timeid [] k,
    find-from_upper (time_id now (u32_mod - 1)) (e * u32_mod + i) t.timeid2key v.sorted,
    count_popped t now k v,
    time_id_sum now (u32_mod - 1) (omega arith),
    v.linked k e i,
  )

  left_back :
      (id k : ℕ)
      → find id (pop_expired now t []).1.timeid2key ≡ some k
      → find k (pop_expired now t []).1.key2timeid ≡ some (id / u32_mod, id % u32_mod)
  unfolding pop_expired
  left_back id k h = ground (
    arith,
    find-expire_each (before_upper (time_id now (u32_mod - 1)) t.timeid2key) t.key2timeid [] k,
    find-from_upper (time_id now (u32_mod - 1)) id t.timeid2key v.sorted,
    count_popped t now k v,
    time_id_sum now (u32_mod - 1) (omega arith),
    v.back id k,
  )

  -- `popExpired` keeps the maps in step.
  pub pop_expired-IsValid : IsValid (pop_expired now t []).1
  pop_expired-IsValid = record {
    index_lt = unfold pop_expired in v.index_lt;
    sorted =
        unfold pop_expired in IsSorted-from_upper (time_id now (u32_mod - 1)) t.timeid2key v.sorted;
    linked = left_linked;
    back = left_back;
  }
