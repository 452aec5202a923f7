-- ===== src/Timer/Later.antt =====
-- What a later `popExpired` pops behind each operation.
use co_uring_web.Prelude.{ℕ, ◌%◌, ◌&&◌, ◌==◌, [], none, not, leb, if◌then◌else◌, ◌≡◌, ◌∙◌, arith}
use co_uring_web.Prelude.OrdMap.{find}
use co_uring_web.Prelude.Keys.{nat_key}
use co_uring_web.Timer.{TimerQueue, time_id, u32_mod, add, remove, pop_expired}
use co_uring_web.Timer.Inv.{IsValid, add-IsValid, remove-IsValid}
use co_uring_web.Timer.Expiry.{deadline, count, count-pop_expired}
use co_uring_web.Timer.Remaining.{
  is_none, deadline-add, deadline-remove, deadline-pop_expired, pop_expired-IsValid,
}

module _ (t : TimerQueue) (v : IsValid t) (later j : ℕ) where
  -- If the two maps are in step and the number of the new entry is not in use, `add` succeeds exactly at a
  -- key with no deadline. Behind it, popExpired appends the key of a successful call once if the low 32 bits
  -- of its time are not above those of the clock, and else not; it appends any other key as often as before.
  pub pop_expired-add :
      (key time : ℕ)
      → find (time_id time t.index) t.timeid2key ≡ none
      → let (added, t') = add t key time in
        (added ≡ is_none (deadline key t))
        × (count j (pop_expired later t' []).0 ≡ (
            if added && key == j
            then (if leb (time % u32_mod) (later % u32_mod) then 1 else 0)
            else count j (pop_expired later t []).0))
  pop_expired-add key time fresh =
      let (added, listed, _) = deadline-add t key time j in
      (
        added,
        count-pop_expired (add t key time).1 later j (add-IsValid t key time v fresh)
            ∙ ground (arith, listed, count-pop_expired t later j v),
      )

  -- If the two maps are in step, `remove` succeeds exactly at a key with a deadline. Behind it, popExpired does not append that key, and
  -- appends any other key as often as before.
  pub pop_expired-remove :
      (key : ℕ)
      → let (removed, t') = remove t key in
        (removed ≡ not (is_none (deadline key t)))
        × (count j (pop_expired later t' []).0
            ≡ (if key == j then 0 else count j (pop_expired later t []).0))
  pop_expired-remove key =
      let (removed, listed) = deadline-remove t key j v in
      (
        removed,
        count-pop_expired (remove t key).1 later j (remove-IsValid t key v)
            ∙ ground (arith, listed, count-pop_expired t later j v),
      )

  -- If the two maps are in step, then behind a call of popExpired a second one appends no key that the first
  -- has appended, and any other key as often as if there had been no first one.
  pub pop_expired_twice :
      (now : ℕ)
      → count j (pop_expired later (pop_expired now t []).1 []).0
        ≡ (if count j (pop_expired now t []).0 == 0 then count j (pop_expired later t []).0 else 0)
  pop_expired_twice now =
      count-pop_expired (pop_expired now t []).1 later j (pop_expired-IsValid t now v)
      ∙ ground (
        arith,
        deadline-pop_expired t now j v,
        count-pop_expired t later j v,
        count-pop_expired t now j v,
      )
