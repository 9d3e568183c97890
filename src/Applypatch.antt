-- ===== src/Applypatch.antt =====
-- applypatch, which patches files and partitions: applypatch/bspatch.c, and applypatch/applypatch.c with
-- applypatch/freecache.c.
pub mod Bspatch
pub mod Patching
