-- ===== src/Transfers.antt =====
-- src/sftp/transfer/: what the transfers share, the window of requests and the limit on uploads.
pub mod Window
pub mod Cache
pub mod Sizes
pub mod Quota
pub mod Limiter
