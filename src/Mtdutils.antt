-- ===== src/Mtdutils.antt =====
-- Raw flash partitions with bad blocks: mtdutils/mtdutils.c.
pub mod Flash
pub mod Write
pub mod Read
mod Tests
