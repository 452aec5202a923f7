-- ===== src/Epoll/Handlers.antt =====
-- What `handle_read` and `handle_write` leave.
use co_uring_web.Prelude.{
  ℕ, zero, suc, ◌+◌, ◌-◌, ◌%◌, ◌^◌, ◌≤◌, ◌<◌, ◌==◌, [], ◌∷◌, ◌++◌, ◌≡◌, refl, ap, ◌⊎◌, inl, inr,
  arith, Bool-cases,
}
use co_uring_web.Prelude.OrdMap.{insert}
use co_uring_web.Prelude.Keys.{nat_key}
use co_uring_web.Timer.{u32_mod}
use co_uring_web.Uring.{op_read, op_write, IoRequest, Memory, set_ret_code}
use co_uring_web.Epoll.{
  IoResult, transferred, again, failed, epoll_in, epoll_out, Kernel, State, Outcome, done, left,
  minus_one, with_code, complete, watch_read, watch_write, read_first, handle_read, written_more,
  write_loop, write_first, handle_write,
}

-- The handle of the request is ready, or the request is pending at the next number, or, where
-- `epoll_ctl` fails, both.
abbrev pub IsHandled : {W : Type 0} → State W → State W → ℕ → Type 0
IsHandled s s' address =
    ((s'.scheduler.io_index2req ≡ s.scheduler.io_index2req)
      × (s'.scheduler.completed_handle_addrs
          ≡ s.scheduler.completed_handle_addrs ++ (s.memory address).context ∷ []))
    ⊎ ((s'.scheduler.io_index2req ≡ insert s.scheduler.io_index address s.scheduler.io_index2req)
        × ((s'.scheduler.completed_handle_addrs ≡ s.scheduler.completed_handle_addrs)
            ⊎ (s'.scheduler.completed_handle_addrs
                ≡ s.scheduler.completed_handle_addrs ++ (s.memory address).context ∷ [])))

-- A call comes to an end, and the request is handled then.
abbrev pub Returns : {W : Type 0} → State W → Outcome (State W) → ℕ → Type 0
Returns {W = W} s o address = (s' : State W) × (o ≡ done s') × IsHandled s s' address

-- What `write` relies on: the kernel takes no more than it is given.
abbrev pub AtMost : ℕ → IoResult → Type 0
AtMost len (transferred n) = n ≤ len
AtMost len _ = Unit

AtMost-≤ : (m n : ℕ) (result : IoResult) → m ≤ n → AtMost m result → AtMost n result
AtMost-≤ m n (transferred k) l h = omega arith
AtMost-≤ m n again l h = tt
AtMost-≤ m n failed l h = tt

left_all :
    (req : IoRequest)
    → req.ret_code < req.size
    → req.size < 2 ^ 31
    → left req ≤ req.size - req.ret_code
left_all req l m = ground arith

abbrev pub WritesAtMost : {W : Type 0} → Kernel W → Type 0
WritesAtMost {W = W} kernel =
    (w : W) (fd address len : ℕ) → AtMost len (kernel.write w fd address len).0

set_ret_code-eq :
    (memory : Memory) (address code : ℕ)
    → set_ret_code memory address code address ≡ record (memory address) { ret_code = code }
set_ret_code-eq memory address code = ground arith

module _ {W : Type 0} where
  with_code-context :
      (s : State W) (address code : ℕ)
      → ((with_code s address code).memory address).context ≡ (s.memory address).context
  with_code-context s address code = ap (λ req. req.context) (set_ret_code-eq s.memory address code)

  with_code-size :
      (s : State W) (address code : ℕ)
      → ((with_code s address code).memory address).size ≡ (s.memory address).size
  with_code-size s address code = ap (λ req. req.size) (set_ret_code-eq s.memory address code)

  with_code-ret_code :
      (s : State W) (address code : ℕ) → ((with_code s address code).memory address).ret_code ≡ code
  with_code-ret_code s address code =
      ap (λ req. req.ret_code) (set_ret_code-eq s.memory address code)

  IsHandled-with_code :
      (s s' : State W) (address code : ℕ)
      → IsHandled (with_code s address code) s' address
      → IsHandled s s' address
  IsHandled-with_code s s' address code h = rw (← with_code-context s address code) h

  complete-IsHandled :
      (s : State W) (address code : ℕ) → IsHandled s (complete s address code) address
  complete-IsHandled s address code = inl (
    refl,
    ap (λ c. s.scheduler.completed_handle_addrs ++ c ∷ []) (with_code-context s address code),
  )

module _ {W : Type 0} (kernel : Kernel W) (now : ℕ) (address : ℕ) where
  watch_read-IsHandled : (s : State W) → IsHandled s (watch_read kernel now s address) address
  unfolding watch_read
  watch_read-IsHandled s =
      let id = s.scheduler.io_index in
      elim (Bool-cases (kernel.epoll_add s.world (s.memory address).fd epoll_in id).0) [
        | inl e ↦ rw (e, watch_read) (inr (refl, inl refl))
        | inr e ↦
            rw (e, watch_read)
              (inr (
                refl,
                inr (
                    ap (λ c. s.scheduler.completed_handle_addrs ++ c ∷ [])
                      (with_code-context s address minus_one)),
              ))
      ]

  watch_write-IsHandled : (s : State W) → IsHandled s (watch_write kernel now s address) address
  unfolding watch_write
  watch_write-IsHandled s =
      let id = s.scheduler.io_index in
      elim (Bool-cases (kernel.epoll_add s.world id epoll_out id).0) [
        | inl e ↦ rw (e, watch_write) (inr (refl, inl refl))
        | inr e ↦ rw (e, watch_write) (inr (refl, inr refl))
      ]

  read_first-IsHandled :
      (s : State W) (result : IoResult)
      → IsHandled s (read_first kernel now s address result) address
  unfolding read_first
  read_first-IsHandled s (transferred n) = complete-IsHandled s address n
  read_first-IsHandled s failed = complete-IsHandled s address minus_one
  read_first-IsHandled s again = watch_read-IsHandled s

  -- handleRead of a read request comes to an end, and the request is handled then.
  pub handle_read_returns :
      (s : State W)
      → (s.memory address).op ≡ op_read
      → (s' : State W) × (handle_read kernel now s address ≡ done s') × IsHandled s s' address
  unfolding handle_read
  handle_read_returns s r =
      let req = s.memory address in
      let (result, world) =
        kernel.read (kernel.set_nonblocking s.world req.fd) req.fd req.data_address req.capicaty in
      let s0 = with_code (record s { world = world }) address 0 in
      (
        read_first kernel now s0 address result,
        ground arith,
        IsHandled-with_code (record s { world = world }) (read_first kernel now s0 address result)
            address 0 (read_first-IsHandled s0 result),
      )

  Returns-with_code :
      (s : State W) (code : ℕ) (o : Outcome (State W))
      → Returns (with_code s address code) o address
      → Returns s o address
  Returns-with_code s code o (s', e, h) = (s', e, IsHandled-with_code s s' address code h)

  written_more-Returns :
      (later : State W → Outcome (State W)) (s : State W) (result : IoResult)
      → (s.memory address).ret_code < (s.memory address).size
      → (s.memory address).size < 2 ^ 31
      → AtMost ((s.memory address).size - (s.memory address).ret_code) result
      → ((code : ℕ)
          → (s.memory address).ret_code < code
          → code < (s.memory address).size
          → Returns (with_code s address code) (later (with_code s address code)) address)
      → Returns s (written_more kernel now later s address result) address
  unfolding written_more
  written_more-Returns later s again l m k next =
      (watch_write kernel now s address, refl, watch_write-IsHandled s)
  written_more-Returns later s failed l m k next =
      (complete s address minus_one, refl, complete-IsHandled s address minus_one)
  written_more-Returns later s (transferred zero) l m k next =
      (complete s address 0, refl, complete-IsHandled s address 0)
  written_more-Returns later s (transferred (suc n)) l m k next =
      let code = ((s.memory address).ret_code + suc n) % u32_mod in
      let whole : code ≡ (s.memory address).ret_code + suc n = ground arith in
      elim (Bool-cases (code == (s.memory address).size)) [
        | inl e ↦
            (complete s address code, rw (e, written_more) refl, complete-IsHandled s address code)
        | inr e ↦
            Returns-with_code s code _ (
              rw (e, written_more) (next code (omega (arith, whole)) (ground (arith, whole, e, k))))
      ]

  write_loop-Returns :
      (fuel : ℕ) (s : State W)
      → WritesAtMost kernel
      → (s.memory address).ret_code < (s.memory address).size
      → (s.memory address).size < 2 ^ 31
      → (s.memory address).size ≤ (s.memory address).ret_code + fuel
      → Returns s (write_loop kernel now address fuel s) address
  unfolding write_loop
  write_loop-Returns zero s b l m f = absurd (omega arith)
  write_loop-Returns (suc fuel) s b l m f =
      let req = s.memory address in
      let result = kernel.write s.world req.fd (req.data_address + req.ret_code) (left req) in
      let s1 = record s { world = result.1 } in
      let within = b s.world req.fd (req.data_address + req.ret_code) (left req) in
      written_more-Returns (write_loop kernel now address fuel) s1 result.0 l m
        (AtMost-≤ (left req) (req.size - req.ret_code) result.0 (left_all req l m) within)
        (λ code a c.
          let size = with_code-size s1 address code in
          let done_now = with_code-ret_code s1 address code in
          write_loop-Returns fuel (with_code s1 address code) b (omega (arith, size, done_now, c))
            (omega (arith, size, m)) (omega (arith, size, done_now, a, f)))

  write_first-Returns :
      (s : State W) (result : IoResult)
      → WritesAtMost kernel
      → (s.memory address).size < 2 ^ 31
      → AtMost (s.memory address).size result
      → Returns s (write_first kernel now s address result) address
  unfolding write_first
  write_first-Returns s again b m h =
      (watch_write kernel now s address, refl, watch_write-IsHandled s)
  write_first-Returns s failed b m h =
      (complete s address minus_one, refl, complete-IsHandled s address minus_one)
  write_first-Returns s (transferred zero) b m h =
      (complete s address 0, refl, complete-IsHandled s address 0)
  write_first-Returns s (transferred (suc n)) b m h =
      elim (Bool-cases ((s.memory address).size == suc n)) [
        | inl e ↦ (
          complete s address (suc n),
          rw (e, write_first) refl,
          complete-IsHandled s address (suc n),
        )
        | inr e ↦
            let size = with_code-size s address (suc n) in
            let done_now = with_code-ret_code s address (suc n) in
            let less : suc n < (s.memory address).size = ground (arith, e, h) in
            Returns-with_code s (suc n) _ (
              rw (e, write_first)
                (write_loop-Returns (s.memory address).size (with_code s address (suc n)) b
                  (omega (arith, size, done_now, less)) (omega (arith, size, m))
                  (omega (arith, size, done_now))))
      ]

  -- If the kernel takes no more bytes than it is given, handleWrite of a write request of less than
  -- 2 ^ 31 bytes comes to an end, and the request is handled then.
  pub handle_write_returns :
      (s : State W)
      → WritesAtMost kernel
      → (s.memory address).op ≡ op_write
      → (s.memory address).size < 2 ^ 31
      → (s' : State W) × (handle_write kernel now s address ≡ done s') × IsHandled s s' address
  unfolding handle_write
  handle_write_returns s b r m =
      let req = s.memory address in
      let result =
        kernel.write (kernel.set_nonblocking s.world req.fd) req.fd req.data_address req.size in
      let s1 = record s { world = result.1 } in
      let within = b (kernel.set_nonblocking s.world req.fd) req.fd req.data_address req.size in
      let same = with_code-size s1 address 0 in
      let returns =
        write_first-Returns (with_code s1 address 0) result.0 b (omega (arith, same, m))
          (rw same within) in
      rw (handle_write, r) (Returns-with_code s1 0 _ returns)
