-- ===== src/Sftp.antt =====
-- The SFTP side of the application: transfers and their phases (src/app/state/sftp.rs).
pub mod Phase
pub mod Transfer
pub mod Table
pub mod Paths
pub mod Browser
