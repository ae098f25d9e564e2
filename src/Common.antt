-- ===== src/Common.antt =====
-- src/common: the helpers that every database client shares.
pub mod Retry
