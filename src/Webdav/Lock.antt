-- ===== src/Webdav/Lock.antt =====
-- pkg/webdav/lock.go: the in-memory lock system. State has the nodes, the two maps, the expiry queue
-- and the removal of a node; Methods has the methods of memLS; the other modules prove.
pub mod State
pub mod Create
pub mod Methods
pub mod Members
pub mod Counts
pub mod Drops
pub mod Consistent
pub mod Refs
pub mod Removal
pub mod Collect
pub mod Conflicts
pub mod Creation
pub mod Touch
pub mod Holding
pub mod Renewal
pub mod Contract
pub mod Claims
pub mod Marks
pub mod Confirms
pub mod System
pub mod Holders
pub mod Safety
