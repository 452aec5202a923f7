-- ===== src/Timer/Inv.antt =====
-- The two maps of the timer queue stay in step.
use co_uring_web.Prelude.{
  ℕ, ◌+◌, ◌*◌, ◌/◌, ◌%◌, ◌^◌, ◌<◌, true, false, none, some, ◌≡◌, arith, Option-cases, inl, inr,
}
use co_uring_web.Prelude.Bits.{bit_or_disjoint}
use co_uring_web.Prelude.OrdMap.{
  find, insert, erase, IsSorted, IsSorted-insert, IsSorted-erase, find-insert_new, find-erase,
}
use co_uring_web.Prelude.Keys.{nat_key}
use co_uring_web.Timer.{TimerQueue, empty, u32_mod, time_id, add, remove}

pub time_id_sum : (time id : ℕ) → id < u32_mod → time_id time id ≡ time % u32_mod * u32_mod + id
unfolding time_id
time_id_sum time id h =
    let e : time * 2 ^ 32 % 2 ^ 64 ≡ time % u32_mod * 2 ^ 32 = omega arith in
    rw e (bit_or_disjoint 32 (time % u32_mod) id h)

-- Every entry of one map has its entry in the other.
pub record IsValid (t : TimerQueue) : Type 0 where
  pub index_lt : t.index < u32_mod
  pub sorted : IsSorted t.timeid2key
  pub linked :
      (k e i : ℕ)
      → find k t.key2timeid ≡ some (e, i)
      → (find (e * u32_mod + i) t.timeid2key ≡ some k) × (e < u32_mod) × (i < u32_mod)
  pub back :
      (id k : ℕ)
      → find id t.timeid2key ≡ some k
      → find k t.key2timeid ≡ some (id / u32_mod, id % u32_mod)

-- The ids in use were given out since the counter last was 0.
abbrev pub IsYoung : TimerQueue → Type 0
IsYoung t = (id k : ℕ) → find id t.timeid2key ≡ some k → id % u32_mod < t.index

pub empty-IsValid : IsValid empty
unfolding find
empty-IsValid = record {
  index_lt = omega arith;
  sorted = tt;
  linked = λ k e i h. absurd (cc h);
  back = λ id k h. absurd (cc h);
}

pub fresh_of_IsYoung :
    (t : TimerQueue) (time : ℕ)
    → IsValid t
    → IsYoung t
    → find (time_id time t.index) t.timeid2key ≡ none
fresh_of_IsYoung t time v y = elim (Option-cases (find (time_id time t.index) t.timeid2key)) [
  | inl e ↦ e
  | inr (k, e) ↦
      absurd (omega (arith, time_id_sum time t.index v.index_lt, y (time_id time t.index) k e))
]

module _ (t : TimerQueue) (key time : ℕ) (v : IsValid t) where
  added_linked :
      find (time_id time t.index) t.timeid2key ≡ none
      → find key t.key2timeid ≡ none
      → (k e i : ℕ) → find k (insert key (time % u32_mod, t.index) t.key2timeid) ≡ some (e, i)
      → (find (e * u32_mod + i) (insert (time_id time t.index) key t.timeid2key) ≡ some k)
        × (e < u32_mod)
        × (i < u32_mod)
  added_linked fresh absent k e i h = ground (
    arith,
    find-insert_new k key (time % u32_mod, t.index) t.key2timeid,
    find-insert_new (e * u32_mod + i) (time_id time t.index) key t.timeid2key,
    v.linked k e i,
    v.index_lt,
    time_id_sum time t.index,
  )

  added_back :
      find (time_id time t.index) t.timeid2key ≡ none
      → find key t.key2timeid ≡ none
      → (id k : ℕ) → find id (insert (time_id time t.index) key t.timeid2key) ≡ some k
      → find k (insert key (time % u32_mod, t.index) t.key2timeid)
        ≡ some (id / u32_mod, id % u32_mod)
  added_back fresh absent id k h = ground (
    arith,
    find-insert_new k key (time % u32_mod, t.index) t.key2timeid,
    find-insert_new id (time_id time t.index) key t.timeid2key,
    v.back id k,
    v.index_lt,
    time_id_sum time t.index,
  )

abbrev added : TimerQueue → ℕ → ℕ → TimerQueue
added t key time = record {
  index = (t.index + 1) % u32_mod;
  key2timeid = insert key (time % u32_mod, t.index) t.key2timeid;
  timeid2key = insert (time_id time t.index) key t.timeid2key;
}

pub add_new :
    (t : TimerQueue) (key time : ℕ)
    → find key t.key2timeid ≡ none
    → add t key time ≡ (true, added t key time)
unfolding add
add_new t key time e = ground arith

pub add_taken :
    (t : TimerQueue) (key time : ℕ) {p : ℕ × ℕ}
    → find key t.key2timeid ≡ some p
    → add t key time ≡ (false, t)
unfolding add
add_taken t key time e = ground arith

-- `add` keeps the maps in step if the pair of deadline and id is not in use.
pub add-IsValid :
    (t : TimerQueue) (key time : ℕ)
    → IsValid t
    → find (time_id time t.index) t.timeid2key ≡ none
    → IsValid (add t key time).1
add-IsValid t key time v fresh = elim (Option-cases (find key t.key2timeid)) [
  | inr (a, e) ↦ rw (add_taken t key time e) v
  | inl e ↦ rw (add_new t key time e) (record {
    index_lt = omega arith;
    sorted = IsSorted-insert (time_id time t.index) key t.timeid2key v.sorted;
    linked = added_linked t key time v fresh e;
    back = added_back t key time v fresh e;
  })
]

added-IsYoung :
    (t : TimerQueue) (key time : ℕ)
    → IsValid t
    → IsYoung t
    → t.index + 1 < u32_mod
    → IsYoung (added t key time)
added-IsYoung t key time v y h id k f = ground (
  arith,
  find-insert_new id (time_id time t.index) key t.timeid2key (fresh_of_IsYoung t time v y),
  y id k,
  time_id_sum time t.index v.index_lt,
)

pub add-IsYoung :
    (t : TimerQueue) (key time : ℕ)
    → IsValid t
    → IsYoung t
    → t.index + 1 < u32_mod
    → IsYoung (add t key time).1
add-IsYoung t key time v y h = elim (Option-cases (find key t.key2timeid)) [
  | inr (a, e) ↦ rw (add_taken t key time e) y
  | inl e ↦ rw (add_new t key time e) (added-IsYoung t key time v y h)
]

-- Under the invariant the second look-up of `remove` succeeds.
pub remove_found :
    (t : TimerQueue) (key e i : ℕ)
    → IsValid t
    → find key t.key2timeid ≡ some (e, i)
    → remove t key ≡ (
      true,
      record t {
        key2timeid = erase key t.key2timeid;
        timeid2key = erase (e * u32_mod + i) t.timeid2key;
      },
    )
unfolding remove
remove_found t key e i v h =
    let l = v.linked key e i h in
    let id_is : time_id e i ≡ e * u32_mod + i = omega (arith, time_id_sum e i l.2) in
    ground (arith, h, id_is, l.0)

pub remove_absent :
    (t : TimerQueue) (key : ℕ) → find key t.key2timeid ≡ none → remove t key ≡ (false, t)
unfolding remove
remove_absent t key e = ground arith

module _ (t : TimerQueue) (key e i : ℕ) (v : IsValid t) where
  removed_linked :
      find key t.key2timeid ≡ some (e, i)
      → (k e' i' : ℕ) → find k (erase key t.key2timeid) ≡ some (e', i')
      → (find (e' * u32_mod + i') (erase (e * u32_mod + i) t.timeid2key) ≡ some k)
        × (e' < u32_mod)
        × (i' < u32_mod)
  removed_linked h k e' i' f = ground (
    arith,
    find-erase k key t.key2timeid,
    find-erase (e' * u32_mod + i') (e * u32_mod + i) t.timeid2key,
    v.linked k e' i',
    v.linked key e i,
  )

  removed_back :
      find key t.key2timeid ≡ some (e, i)
      → (id k : ℕ) → find id (erase (e * u32_mod + i) t.timeid2key) ≡ some k
      → find k (erase key t.key2timeid) ≡ some (id / u32_mod, id % u32_mod)
  removed_back h id k f = ground (
    arith,
    find-erase k key t.key2timeid,
    find-erase id (e * u32_mod + i) t.timeid2key,
    v.linked key e i,
    v.back id k,
  )

-- `remove` keeps the maps in step.
pub remove-IsValid : (t : TimerQueue) (key : ℕ) → IsValid t → IsValid (remove t key).1
remove-IsValid t key v = elim (Option-cases (find key t.key2timeid)) [
  | inl e ↦ rw (remove_absent t key e) v
  | inr ((e, i), h) ↦ rw (remove_found t key e i v h) (record {
    index_lt = v.index_lt;
    sorted = IsSorted-erase (e * u32_mod + i) t.timeid2key v.sorted;
    linked = removed_linked t key e i v h;
    back = removed_back t key e i v h;
  })
]
