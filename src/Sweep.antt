-- ===== src/Sweep.antt =====
-- internal/sweep, with the two tables of internal/postgres that it writes: when a museum's website
-- is next read, and what one reading leaves behind.
pub mod Schedule
pub mod Row
pub mod Listings
pub mod Runner
