-- ===== src/Minzip.antt =====
-- minzip, the reader of update packages: minzip/Bits.h, minzip/Hash.c and minzip/Zip.c.
pub mod Bits
pub mod Hash
pub mod Zip
mod Tests
