-- ===== src/Timer/Timely.antt =====
-- A timer queue whose keys are all up to a bound, and which has been given at most as many timers.
use co_uring_web.Prelude.{
  ℕ, ◌+◌, ◌-◌, ◌*◌, ◌<◌, ◌≤◌, ◌==◌, false, none, [], ◌≡◌, refl, ◌∙◌, arith, Option-cases, inl, inr,
}
use co_uring_web.Prelude.OrdMap.{find, find-erase}
use co_uring_web.Prelude.Keys.{nat_key}
use co_uring_web.Timer.{TimerQueue, u32_mod, time_id, empty, add, remove, pop_expired}
use co_uring_web.Timer.Inv.{
  IsValid, IsYoung, empty-IsValid, fresh_of_IsYoung, add-IsValid, add-IsYoung, remove-IsValid,
  add_new, add_taken, remove_found, remove_absent,
}
use co_uring_web.Timer.Expiry.{deadline, find-from_upper}
use co_uring_web.Timer.Remaining.{
  deadline-add, deadline-remove, deadline-pop_expired, pop_expired-IsValid,
}

pub record IsTimely (n : ℕ) (t : TimerQueue) : Type 0 where
  pub valid : IsValid t
  pub young : IsYoung t
  pub few : t.index ≤ n
  pub free : (k : ℕ) → n < k → deadline k t ≡ none

pub empty-IsTimely : IsTimely 0 empty
unfolding find
empty-IsTimely = record {
  valid = empty-IsValid;
  young = λ id k h. absurd (cc h);
  few = omega arith;
  free = λ k l. refl;
}

add_index :
    (t : TimerQueue) (key time n : ℕ)
    → t.index ≤ n
    → n + 1 < u32_mod
    → (add t key time).1.index ≤ n + 1
add_index t key time n l m = elim (Option-cases (find key t.key2timeid)) [
  | inl e ↦ rw (add_new t key time e) (omega (arith, l, m))
  | inr (a, e) ↦ rw (add_taken t key time e) (omega (arith, l))
]

-- A timer is added at the next key.
pub add-IsTimely :
    (n time : ℕ) (t : TimerQueue)
    → n + 1 < u32_mod
    → IsTimely n t
    → IsTimely (n + 1) (add t (n + 1) time).1
add-IsTimely n time t m h = record {
  valid = add-IsValid t (n + 1) time h.valid (fresh_of_IsYoung t time h.valid h.young);
  young = add-IsYoung t (n + 1) time h.valid h.young (omega (arith, h.few, m));
  few = add_index t (n + 1) time n h.few m;
  free = λ k l.
      let other : ((n + 1) == k) ≡ false = ground (arith, l) in
      (deadline-add t (n + 1) time k).1 ∙ ground (arith, other, h.free k (omega (arith, l)));
}

remove-IsYoung : (t : TimerQueue) (key : ℕ) → IsValid t → IsYoung t → IsYoung (remove t key).1
remove-IsYoung t key v y = elim (Option-cases (find key t.key2timeid)) [
  | inl e ↦ rw (remove_absent t key e) y
  | inr ((e, i), f) ↦
      rw (remove_found t key e i v f)
        (λ id k g. ground (arith, g, y id k, find-erase id (e * u32_mod + i) t.timeid2key))
]

remove_index : (t : TimerQueue) (key : ℕ) → IsValid t → (remove t key).1.index ≡ t.index
remove_index t key v = elim (Option-cases (find key t.key2timeid)) [
  | inl e ↦ rw (remove_absent t key e) refl
  | inr ((e, i), f) ↦ rw (remove_found t key e i v f) refl
]

pub remove-IsTimely : (n key : ℕ) (t : TimerQueue) → IsTimely n t → IsTimely n (remove t key).1
remove-IsTimely n key t h = record {
  valid = remove-IsValid t key h.valid;
  young = remove-IsYoung t key h.valid h.young;
  few = omega (arith, remove_index t key h.valid, h.few);
  free = λ k l. (deadline-remove t key k h.valid).1 ∙ ground (arith, h.free k l);
}

pop_expired-IsYoung :
    (t : TimerQueue) (now : ℕ) → IsValid t → IsYoung t → IsYoung (pop_expired now t []).1
unfolding pop_expired
pop_expired-IsYoung t now v y id k g =
    ground (arith, g, y id k, find-from_upper (time_id now (u32_mod - 1)) id t.timeid2key v.sorted)

pub pop_expired-IsTimely :
    (n now : ℕ) (t : TimerQueue) → IsTimely n t → IsTimely n (pop_expired now t []).1
pop_expired-IsTimely n now t h = record {
  valid = pop_expired-IsValid t now h.valid;
  young = pop_expired-IsYoung t now h.valid h.young;
  few = unfold pop_expired in h.few;
  free = λ k l. deadline-pop_expired t now k h.valid ∙ ground (arith, h.free k l);
}
