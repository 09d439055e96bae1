-- ===== src/Worker.antt =====
-- The worker (package rhttp at the repository's root).
pub mod Frames
pub mod Link
pub mod Response
pub mod Uri
pub mod Serve
pub mod Pool
pub mod Options
pub mod Wired
