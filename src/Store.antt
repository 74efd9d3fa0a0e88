-- ===== src/Store.antt =====
-- The database as the repositories see it, and the methods of a service as functions on it.
-- A statement (begin and commit too) fails where the list of `faults` says so; once the list has run
-- out, none does. `time.Now()` and the texts that `uuid.New()` yields are fields of the world.
pub mod Tables
pub mod Monad
pub mod Triples
pub mod Rows
pub mod Effects
pub mod Repositories
pub mod Reads
pub mod Quiet
pub mod Dividends
pub mod Prices
pub mod Funds
