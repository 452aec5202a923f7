-- ===== src/LockfreeQueue.antt =====
-- `LockfreeQueue<T, true>` of include/lockfree_queue.h: a ring of `capicity_` slots between two
-- 32-bit counters. Here are `push` and `pop` as one call each; Threads takes them apart into the
-- loads and stores that other threads can come between.
pub mod Sequential
pub mod Wrap
pub mod Threads
mod Tests
use co_uring_web.Prelude.{
  ℕ, ◌+◌, ◌%◌, ◌^◌, Bool, true, false, Option, none, some, ◌==◌, if◌then◌else◌,
}

abbrev pub u32_mod : ℕ
u32_mod = 2 ^ 32

-- The slots are the memory that `malloc` returned: whatever it holds at first.
pub record Queue {ℓ} (T : Type ℓ) : Type ℓ where
  pub capicity : ℕ
  pub write_index : ℕ
  pub read_index : ℕ
  pub slots : ℕ → T

abbrev pub update {ℓ} : {A : Type ℓ} → (ℕ → A) → ℕ → A → ℕ → A
update f i v j = if i == j then v else f j

abbrev pub default_capicity : ℕ
default_capicity = 25600

module _ {ℓ} {T : Type ℓ} where
  -- The constructor, over the memory that it is given.
  unfoldable pub create : ℕ → (ℕ → T) → Queue T
  create capicity memory = record {
    capicity = capicity;
    write_index = 0;
    read_index = 0;
    slots = memory;
  }

  abbrev pub count2index : Queue T → ℕ → ℕ
  count2index q count = count % q.capicity

  abbrev pub is_full : Queue T → ℕ → Bool
  is_full q w = count2index q ((w + 1) % u32_mod) == count2index q q.read_index

  pub push : Queue T → T → Bool × Queue T
  push q value = if is_full q q.write_index then (false, q) else (
    true,
    record q {
      slots = update q.slots (count2index q q.write_index) value;
      write_index = (q.write_index + 1) % u32_mod;
    },
  )

  -- With no other thread the `compare_exchange_strong` succeeds: one round of the loop.
  -- The option is what is stored through `data`, and `none` the return value false.
  pub pop : Queue T → Option T × Queue T
  pop q = if q.read_index == q.write_index then (none, q) else (
    some (q.slots (count2index q q.read_index)),
    record q { read_index = (q.read_index + 1) % u32_mod },
  )
