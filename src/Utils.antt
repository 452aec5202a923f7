-- ===== src/Utils.antt =====
-- The helpers of include/utils.h and src/utils.cpp.
pub mod Decimal
pub mod Split
pub mod Utf8
pub mod Hash
pub mod Address
