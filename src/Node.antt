-- ===== src/Node.antt =====
-- The receiving node: `node (rf)_node1/`.
pub mod Wire
pub mod Status
pub mod Track
pub mod Window
pub mod SendReport
pub mod Receive
pub mod Driver
pub mod NetRx
pub mod Init
pub mod Cleanup
pub mod Rounds
pub mod Thread
