-- ===== src/Utils/Utf8.antt =====
-- `fromUnicode` of include/utils.h: a code point in up to six bytes.
pub mod Decode
mod Tests
use co_uring_web.Prelude.{
  ℕ, ◌/◌, ◌^◌, bit_and, bit_or, Option, none, some, List, [], ◌∷◌, Bytes, leb, ◌&&◌, ◌||◌,
  if◌then◌else◌,
}

-- The bytes behind the count in `bytes[0]`. A wchar_t is a signed number of 32 bits, given here by
-- its bits: from 2 ^ 31 on it is negative, and takes the first branch. With no branch taken the
-- count is never written: `none`.
pub from_unicode : ℕ → Option Bytes
from_unicode u =
    if leb (2 ^ 31) u || leb u 0x7f
    then some (bit_and u 0x7f ∷ [])
    else if leb 0x80 u && leb u 0x7ff
    then some (bit_or (bit_and (u / 2 ^ 6) 0x1f) 0xc0 ∷ bit_or (bit_and u 0x3f) 0x80 ∷ [])
    else if leb 0x800 u && leb u 0xffff
    then some (
        bit_or (bit_and (u / 2 ^ 12) 0xf) 0xe0
        ∷ bit_or (bit_and (u / 2 ^ 6) 0x3f) 0x80
        ∷ bit_or (bit_and u 0x3f) 0x80
        ∷ [])
    else if leb 0x10000 u && leb u 0x1fffff
    then some (
        bit_or (bit_and (u / 2 ^ 18) 0x7) 0xf0
        ∷ bit_or (bit_and (u / 2 ^ 12) 0x3f) 0x80
        ∷ bit_or (bit_and (u / 2 ^ 6) 0x3f) 0x80
        ∷ bit_or (bit_and u 0x3f) 0x80
        ∷ [])
    else if leb 0x200000 u && leb u 0x3ffffff
    then some (
        bit_or (bit_and (u / 2 ^ 24) 0x3) 0xf8
        ∷ bit_or (bit_and (u / 2 ^ 18) 0x3f) 0x80
        ∷ bit_or (bit_and (u / 2 ^ 12) 0x3f) 0x80
        ∷ bit_or (bit_and (u / 2 ^ 6) 0x3f) 0x80
        ∷ bit_or (bit_and u 0x3f) 0x80
        ∷ [])
    else if leb 0x4000000 u && leb u 0x7fffffff
    then some (
        bit_or (bit_and (u / 2 ^ 30) 0x1) 0xfc
        ∷ bit_or (bit_and (u / 2 ^ 24) 0x3f) 0x80
        ∷ bit_or (bit_and (u / 2 ^ 18) 0x3f) 0x80
        ∷ bit_or (bit_and (u / 2 ^ 12) 0x3f) 0x80
        ∷ bit_or (bit_and (u / 2 ^ 6) 0x3f) 0x80
        ∷ bit_or (bit_and u 0x3f) 0x80
        ∷ [])
    else none
