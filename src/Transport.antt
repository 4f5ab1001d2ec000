-- ===== src/Transport.antt =====
-- transport/: the engine client that speaks to a host over frames.
pub mod Decimal
pub mod Requests
pub mod Rejections
pub mod Client
pub mod ErrorText
