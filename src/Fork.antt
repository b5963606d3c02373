-- ===== src/Fork.antt =====
-- The exercises of lab-fork/fork.
pub mod Primes
pub mod Xargs
pub mod Find
mod Tests
