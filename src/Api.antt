-- ===== src/Api.antt =====
-- internal/api: the limits on what one client may ask of the server.
pub mod RateLimit
pub mod Scrape
