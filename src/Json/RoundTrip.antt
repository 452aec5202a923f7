-- ===== src/Json/RoundTrip.antt =====
-- What `dump` writes, `parse` reads back.
pub mod Strings
pub mod Numbers
pub mod Plain
pub mod Rounds
pub mod Scalars
pub mod Layout
pub mod Values
pub mod Document
