-- ===== src/Tests.antt =====
-- Runs of the definitions on small inputs, and the theorems applied to concrete ones.
mod Frames
mod Transfers
mod Hosts
mod Sharing
mod Browsing
mod Windows
mod Streams
mod Groups
mod Sessions
