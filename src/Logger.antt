-- ===== src/Logger.antt =====
-- `LoggerInfoBuilder` of include/logger.h, and the end of a `Logger`: how a line is built in a buffer of
-- 512 bytes. A `Writer` is `iovecs_[1]`: the buffer, and `iov_len` as its index. What `snprintf` makes of a
-- number or of the head of a line is a text that is given. The time header is left out.
pub mod Line
pub mod Rotate
mod Tests
use co_uring_web.Prelude.{
  ℕ, ◌+◌, ◌-◌, ◌%◌, List, [], ◌∷◌, ◌++◌, Bytes, length, take, leb, ltb, ◌==◌, if◌then◌else◌, set,
}
use co_uring_web.Timer.{u64_mod}
use co_uring_web.Http.Response.Buffer.{Outcome, ok, fault, ◌>>=◌, Writer, copy, put_raw}

abbrev pub log_info_max_size : ℕ
log_info_max_size = 512

-- `logInfoMaxSize - iovecs_[1].iov_len`, in 64 bits
abbrev pub room : Writer → ℕ
room w = (log_info_max_size + (u64_mod - w.index)) % u64_mod

-- `build(view)`
unfoldable pub build_view : Bytes → Writer → Outcome Writer
build_view view w =
    if leb (length view + 1) (room w)
    then copy view w
    else (copy (take (room w) view) w >>= λ w'. ok (record w' { index = log_info_max_size }))

-- What `snprintf` writes of a text into so many bytes.
abbrev pub printed : ℕ → Bytes → Bytes
printed n text = if n == 0 then [] else (take (n - 1) text ++ 0 ∷ [])

-- `build(num)`, for each type of number. `snprintf` returns the length of the whole text.
unfoldable pub build_num : Bytes → Writer → Outcome Writer
build_num text w =
    copy (printed (room w) text) w >>= λ w'. ok (record w' { index = w.index + length text })

-- `build(c)`
unfoldable pub build_char : ℕ → Writer → Outcome Writer
build_char c w = if ltb w.index log_info_max_size then put_raw c w else ok w

-- `format`, where `memory` is what `malloc` returned.
unfoldable pub format : Bytes → Bytes → Outcome Writer
format memory head = build_num head (record { buffer = memory; index = 0 })

-- The argument of an `operator<<`.
pub data Item : Type 0 where
  view num : Bytes → Item
  character : ℕ → Item

abbrev pub build : Item → Writer → Outcome Writer
build (view s) = build_view s
build (num text) = build_num text
build (character c) = build_char c

unfoldable pub build_each : List Item → Writer → Outcome Writer
build_each [] w = ok w
build_each (i ∷ is) w = build i w >>= λ w'. build_each is w'

-- The destructor of `Logger`, up to `writev`: the bytes of the buffer that are written.
unfoldable pub end_line : Writer → Outcome Bytes
end_line w =
    let len = if leb w.index (log_info_max_size - 1) then w.index else log_info_max_size - 1 in
    if leb (w.index + 1) (length w.buffer)
    then ok (take (w.index + 1) (set w.buffer len 10))
    else fault

-- A line, from the constructor to the destructor.
unfoldable pub line : Bytes → Bytes → List Item → Outcome Bytes
line memory head is = format memory head >>= λ w. build_each is w >>= end_line
