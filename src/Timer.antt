-- ===== src/Timer.antt =====
-- `TimerQueue` of include/timer.h and src/timer.cpp: two maps kept in step, from a key to its
-- (deadline, id) and from the 64-bit number `deadline << 32 | id` to the key.
-- The clock, `utils::getTimeInMilisecond`, is the argument `now`.
pub mod Inv
pub mod Expiry
pub mod Remaining
pub mod Timely
pub mod Later
pub mod Epoch
pub mod Order
mod Tests
use co_uring_web.Prelude.{
  ℕ, ◌+◌, ◌-◌, ◌*◌, ◌%◌, ◌^◌, bit_or, Bool, true, false, List, [], ◌∷◌, ◌++◌, Option, none, some,
  leb, if◌then◌else◌,
}
use co_uring_web.Prelude.OrdMap.{Map, find, insert, erase}
use co_uring_web.Prelude.Keys.{nat_key}

abbrev pub u32_mod : ℕ
u32_mod = 2 ^ 32

abbrev pub u64_mod : ℕ
u64_mod = 2 ^ 64

pub record TimerQueue : Type 0 where
  pub index : ℕ
  pub key2timeid : Map ℕ (ℕ × ℕ)
  pub timeid2key : Map ℕ ℕ

abbrev pub empty : TimerQueue
empty = record { index = 0; key2timeid = []; timeid2key = [] }

-- `timeid = time << 32; timeid |= id`, in 64 bits
pub time_id : ℕ → ℕ → ℕ
time_id time id = bit_or (time * 2 ^ 32 % u64_mod) id

unfoldable pub add : TimerQueue → ℕ → ℕ → Bool × TimerQueue
add t key expired_time_point = elim (find key t.key2timeid) [
  | some _ ↦ (false, t)
  | none ↦ (
    true,
    record {
      index = (t.index + 1) % u32_mod;
      key2timeid = insert key (expired_time_point % u32_mod, t.index) t.key2timeid;
      timeid2key = insert (time_id expired_time_point t.index) key t.timeid2key;
    },
  )
]

pub remove : TimerQueue → ℕ → Bool × TimerQueue
remove t key = elim (find key t.key2timeid) [
  | none ↦ (false, t)
  | some (time, id) ↦ elim (find (time_id time id) t.timeid2key) [
    | none ↦ (false, t)
    | some _ ↦ (
      true,
      record t {
        key2timeid = erase key t.key2timeid;
        timeid2key = erase (time_id time id) t.timeid2key;
      },
    )
  ]
]

-- The entries of the map before `upper_bound(flag)`, and those from it on.
pub before_upper : ℕ → Map ℕ ℕ → Map ℕ ℕ
before_upper flag [] = []
before_upper flag ((timeid, key) ∷ m) =
    let rest = before_upper flag m in if leb timeid flag then (timeid, key) ∷ rest else []

pub from_upper : ℕ → Map ℕ ℕ → Map ℕ ℕ
from_upper flag [] = []
from_upper flag ((timeid, key) ∷ m) =
    let rest = from_upper flag m in if leb timeid flag then rest else (timeid, key) ∷ m

-- The loop from `begin()` to `endIt`.
pub expire_each : Map ℕ ℕ → Map ℕ (ℕ × ℕ) → List ℕ → List ℕ × Map ℕ (ℕ × ℕ)
expire_each [] key2timeid keys = (keys, key2timeid)
expire_each ((timeid, key) ∷ m) key2timeid keys =
    expire_each m (erase key key2timeid) (keys ++ key ∷ [])

-- What `popExpired` appends to `keys`, and the queue that it leaves.
pub pop_expired : ℕ → TimerQueue → List ℕ → List ℕ × TimerQueue
pop_expired now t keys =
    let flag = time_id now (u32_mod - 1) in
    let (keys', rest) = expire_each (before_upper flag t.timeid2key) t.key2timeid keys in
    (keys', record t { key2timeid = rest; timeid2key = from_upper flag t.timeid2key })
