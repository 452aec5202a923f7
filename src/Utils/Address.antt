-- ===== src/Utils/Address.antt =====
-- `addr2str` of src/utils.cpp, for the four bytes of an address in their order in memory.
pub mod Dotted
mod Tests
use co_uring_web.Prelude.{ℕ, ◌+◌, ◌-◌, List, [], ◌∷◌, Bytes, length, take, replicate}
use co_uring_web.Utils.Decimal.{to_string}
use co_uring_web.Http.Response.Buffer.{Outcome, ok, ◌>>=◌, Writer, copy, put_raw}
use co_uring_web.Logger.{printed}

abbrev pub address_size : ℕ
address_size = 16

-- A round of the loop; the index of the writer is `written`.
unfoldable pub write_octet : ℕ → Writer → Outcome Writer
write_octet c w = copy (printed (address_size - w.index) (to_string c)) w >>= λ w'.
    put_raw b'.' (record w' { index = w.index + length (to_string c) })

unfoldable pub write_octets : List ℕ → Writer → Outcome Writer
write_octets [] w = ok w
write_octets (c ∷ addr) w = write_octet c w >>= write_octets addr

-- Behind the loop.
unfoldable pub end_address : Writer → Outcome Bytes
end_address w =
    put_raw 0 (record w { index = w.index - 1 }) >>= λ w'. ok (take (w.index - 1) w'.buffer)

unfoldable pub addr2str : List ℕ → Outcome Bytes
addr2str addr =
    write_octets addr (record { buffer = replicate address_size 0; index = 0 }) >>= end_address
