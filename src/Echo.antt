-- ===== src/Echo.antt =====
-- `Echo` of echo.cpp, over the kernel of Service. The buffers, which are freed on each path, and what is
-- printed or written to the log are left out.
pub mod Stream
mod Tests
use co_uring_web.Prelude.{ℕ, zero, suc, List, [], ◌∷◌, Bytes}
use co_uring_web.Service.{Received, received, nothing, Kernel}

-- The coroutine has ended, or goes on after as many rounds as were asked for.
pub data Echoed (W : Type 0) : Type 0 where
  ended : W → Echoed W
  goes_on : W → Echoed W

abbrev pub buffer_size : ℕ
buffer_size = 1024

abbrev pub echo_timeout : ℕ
echo_timeout = 3000

module _ {W : Type 0} (kernel : Kernel W) (conn_fd : ℕ) where
  -- A round behind its read; the loop goes on as `later`.
  unfoldable pub echo_round : (W → Echoed W) → Received × W → Echoed W
  echo_round later (nothing, w) = ended (kernel.close w conn_fd)
  echo_round later (received [], w) = ended (kernel.close w conn_fd)
  echo_round later (received (c ∷ bytes), w) =
      later (kernel.async_write w conn_fd (c ∷ bytes) echo_timeout)

  unfoldable pub echo : ℕ → W → Echoed W
  echo zero w = goes_on w
  echo (suc rounds) w =
      echo_round (echo rounds) (kernel.async_read w conn_fd buffer_size echo_timeout)
