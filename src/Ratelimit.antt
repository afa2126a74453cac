-- ===== src/Ratelimit.antt =====
-- internal/ratelimit/gate.go: the spacing of outbound requests.
pub mod Int64
pub mod Gate
