-- ===== src/Timer/Tests.antt =====
-- `TimerQueue` on small queues.
use co_uring_web.Prelude.{
  leb, ◌+◌, ◌%◌, ◌==◌, ◌&&◌, not, if◌then◌else◌, [], ◌∷◌, none, ◌≡◌, refl, arith,
}
use co_uring_web.Prelude.OrdMap.{find, insert, erase}
use co_uring_web.Prelude.Keys.{nat_key}
use co_uring_web.Timer.{
  TimerQueue, u32_mod, empty, time_id, add, remove, pop_expired, before_upper, from_upper,
  expire_each,
}
use co_uring_web.Timer.Inv.{
  IsValid, IsYoung, empty-IsValid, fresh_of_IsYoung, add-IsValid, add-IsYoung,
}
use co_uring_web.Timer.Expiry.{count, deadline, count-pop_expired}
use co_uring_web.Timer.Remaining.{is_none}
use co_uring_web.Timer.Later.{pop_expired-add, pop_expired-remove, pop_expired_twice}
use co_uring_web.Timer.Epoch.{pop_expired_on_time, pop_expired_early}
use co_uring_web.Timer.Order.{due, InOrder, pop_expired-InOrder}

abbrev one_timer : TimerQueue
one_timer = (add empty 7 1000).1

abbrev two_timers : TimerQueue
two_timers = (add one_timer 8 500).1

empty-IsYoung : IsYoung empty
unfolding find
empty-IsYoung id k e = absurd (cc e)

empty_fresh : find (time_id 1000 0) empty.timeid2key ≡ none
unfolding find
empty_fresh = refl

one_timer-IsValid : IsValid one_timer
one_timer-IsValid = add-IsValid empty 7 1000 empty-IsValid empty_fresh

one_timer-IsYoung : IsYoung one_timer
one_timer-IsYoung = add-IsYoung empty 7 1000 empty-IsValid empty-IsYoung (omega arith)

two_timers-IsValid : IsValid two_timers
two_timers-IsValid =
    add-IsValid one_timer 8 500 one_timer-IsValid
      (fresh_of_IsYoung one_timer 500 one_timer-IsValid one_timer-IsYoung)

two_timers-run : (pop_expired 600 two_timers []).0 ≡ 8 ∷ []
unfolding pop_expired add find insert erase before_upper from_upper expire_each time_id
two_timers-run = refl

count-pop_expired_example : count 8 (pop_expired 600 two_timers []).0 ≡ 1
unfolding add find insert
count-pop_expired_example = count-pop_expired two_timers 600 8 two_timers-IsValid

pop_expired-add_example :
    ((add one_timer 8 500).0 ≡ is_none (deadline 8 one_timer))
    × (count 8 (pop_expired 600 (add one_timer 8 500).1 []).0 ≡ (
        if (add one_timer 8 500).0 && 8 == 8
        then (if leb (500 % u32_mod) (600 % u32_mod) then 1 else 0)
        else count 8 (pop_expired 600 one_timer []).0))
pop_expired-add_example =
    pop_expired-add one_timer one_timer-IsValid 600 8 8 500
      (fresh_of_IsYoung one_timer 500 one_timer-IsValid one_timer-IsYoung)

pop_expired-remove_example :
    ((remove two_timers 8).0 ≡ not (is_none (deadline 8 two_timers)))
    × (count 8 (pop_expired 600 (remove two_timers 8).1 []).0 ≡ 0)
pop_expired-remove_example = pop_expired-remove two_timers two_timers-IsValid 600 8 8

pop_expired_twice_example : count 8 (pop_expired 2000 (pop_expired 600 two_timers []).1 []).0 ≡ (
    if count 8 (pop_expired 600 two_timers []).0 == 0
    then count 8 (pop_expired 2000 two_timers []).0
    else 0)
pop_expired_twice_example = pop_expired_twice two_timers two_timers-IsValid 2000 8 600

pop_expired-InOrder_example : InOrder (due two_timers) (pop_expired 2000 two_timers []).0
pop_expired-InOrder_example = pop_expired-InOrder two_timers 2000 two_timers-IsValid

free_key : deadline 9 one_timer ≡ none
unfolding add find insert time_id
free_key = refl

pop_expired_on_time_example : count 9 (pop_expired 600 (add one_timer 9 500).1 []).0 ≡ 1
pop_expired_on_time_example =
    pop_expired_on_time one_timer 9 500 600 one_timer-IsValid one_timer-IsYoung free_key refl

pop_expired_early_example : count 9 (pop_expired 600 (add one_timer 9 (u32_mod + 5)).1 []).0 ≡ 1
pop_expired_early_example =
    pop_expired_early one_timer 9 (u32_mod + 5) 600 one_timer-IsValid one_timer-IsYoung free_key
      (omega arith) (omega arith)
