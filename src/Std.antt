-- ===== src/Std.antt =====
-- The parts of Go's standard library that the database computes with.
pub mod Endian
pub mod Varint
pub mod Crc
pub mod OsFile
pub mod GoMap
pub mod Float
pub mod SkipList
pub mod Sort
pub mod Decimal
pub mod Clock
