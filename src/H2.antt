-- ===== src/H2.antt =====
-- internal/h2: the HTTP/2 plumbing that worker and proxy share.
pub mod Conn
pub mod Errors
pub mod Flow
pub mod Names
pub mod Stream
pub mod Writer
