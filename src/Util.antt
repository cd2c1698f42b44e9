-- ===== src/Util.antt =====
-- The functions of sage-ref/util.py.
pub mod SeedPath
pub mod Hashing
pub mod Challenge
pub mod Compress
pub mod Sampling
pub mod Solve
