-- ===== src/Wikipedia.antt =====
-- pkg/wikipedia: museums read off list pages and found in the category tree.
pub mod Table
pub mod Template
pub mod Classify
pub mod Topics
pub mod Crawl
pub mod Lists
pub mod Extractor
