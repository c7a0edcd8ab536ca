-- ===== src/Webdav/Handler.antt =====
-- pkg/webdav/webdav.go, with moveFiles, copyFiles and walkFS of file.go and the readers of xml.go: the
-- methods of Handler over the operations that they call of the file system.
pub mod Request
pub mod Bodies
pub mod Replies
pub mod Files
pub mod Resources
pub mod Transfers
pub mod Listing
pub mod Walks
pub mod Propstats
pub mod Listed
pub mod Serve
pub mod Refused
pub mod Statuses
pub mod Changes
pub mod Unchanged
pub mod Puts
pub mod Deletes
pub mod Copies
pub mod Accepted
pub mod Locks
mod Tests
