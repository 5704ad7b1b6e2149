-- ===== src/Programs.antt =====
-- The programs around the library: what their workers do with a job.
pub mod Primes
pub mod Files
