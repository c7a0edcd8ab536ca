-- ===== src/Webdav.antt =====
-- pkg/webdav: the in-memory lock system and the Timeout header (lock.go), and the If header (if.go).
pub mod Path
pub mod Lock
pub mod If
pub mod Timeout
pub mod Props
pub mod Handler
mod LockTests
