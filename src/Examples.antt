-- ===== src/Examples.antt =====
-- Runs of the theorems at concrete inputs, by the part of the program that they are about.
pub mod Gates
pub mod Plans
pub mod Sites
pub mod Clients
pub mod Areas
pub mod Queues
pub mod Messages
pub mod Records
pub mod Names
pub mod Pages
pub mod Programmes
pub mod Crawls
pub mod Listings
