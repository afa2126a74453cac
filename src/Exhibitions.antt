-- ===== src/Exhibitions.antt =====
-- pkg/exhibitions: the exhibitions that are read off museum pages.
pub mod Calendar
pub mod Dates
pub mod Words
pub mod Page
pub mod Title
pub mod Json
pub mod Links
pub mod Displays
pub mod Candidates
pub mod Fetch
pub mod Listing
pub mod Dedupe
pub mod Programme
