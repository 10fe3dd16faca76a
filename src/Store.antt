-- ===== src/Store.antt =====
-- crates/node/src/store/: the persistent stores of a node, over one directory of files.
pub mod Disk
pub mod Map
pub mod Inbox
pub mod Pending
pub mod State
pub mod Blocks
mod Tests
