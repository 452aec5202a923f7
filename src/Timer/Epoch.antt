-- ===== src/Timer/Epoch.antt =====
-- A deadline is kept in 32 bits of milliseconds, and `popExpired` compares it with the clock's low
-- 32 bits: exact while both lie in one period of 2 ^ 32 milliseconds, early or late across two.
use co_uring_web.Prelude.{ℕ, ◌/◌, ◌%◌, ◌<◌, ◌≤◌, [], none, leb, if◌then◌else◌, ◌≡◌, arith, ◌∙◌}
use co_uring_web.Prelude.Keys.{nat_key}
use co_uring_web.Timer.{TimerQueue, u32_mod, add, pop_expired}
use co_uring_web.Timer.Inv.{IsValid, IsYoung, add-IsValid, fresh_of_IsYoung}
use co_uring_web.Timer.Expiry.{deadline, count, count-pop_expired}
use co_uring_web.Timer.Remaining.{deadline-add}

-- What becomes of a timer that was added at a free key, popped at any later time.
count-pop_expired-add :
    (t : TimerQueue) (key time now : ℕ)
    → IsValid t
    → IsYoung t
    → deadline key t ≡ none
    → count key (pop_expired now (add t key time).1 []).0
      ≡ (if leb (time % u32_mod) (now % u32_mod) then 1 else 0)
count-pop_expired-add t key time now v y free =
    count-pop_expired (add t key time).1 now key
      (add-IsValid t key time v (fresh_of_IsYoung t time v y))
    ∙ ground (arith, deadline-add t key time key)

-- If the two maps are in step, the numbers in use are those given out since the counter last was 0, and the
-- key has no deadline, then within one period of 2 ^ 32 milliseconds a new timer is popped exactly when its
-- time has come.
pub pop_expired_on_time :
    (t : TimerQueue) (key time now : ℕ)
    → IsValid t
    → IsYoung t
    → deadline key t ≡ none
    → time / u32_mod ≡ now / u32_mod
    → count key (pop_expired now (add t key time).1 []).0 ≡ (if leb time now then 1 else 0)
pop_expired_on_time t key time now v y free same =
    count-pop_expired-add t key time now v y free ∙ ground arith

-- If the two maps are in step, the numbers in use are those given out since the counter last was 0, and the
-- key has no deadline, then a new timer whose time is still to come is popped if its low 32 bits are not
-- above the clock's.
pub pop_expired_early :
    (t : TimerQueue) (key time now : ℕ)
    → IsValid t
    → IsYoung t
    → deadline key t ≡ none
    → now < time
    → time % u32_mod ≤ now % u32_mod
    → count key (pop_expired now (add t key time).1 []).0 ≡ 1
pop_expired_early t key time now v y free later low =
    count-pop_expired-add t key time now v y free ∙ ground arith
