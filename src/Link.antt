-- ===== src/Link.antt =====
-- The links between the parts: what one part sends against what the next part reads.
pub mod Rf
pub mod Vlc
pub mod Report
pub mod Acks
pub mod Tx
pub mod Receive
pub mod Blocks
pub mod Driver
pub mod Light
pub mod Node
pub mod System
pub mod World
pub mod Netif
pub mod Path
pub mod Overrun
pub mod Start
pub mod Thread
pub mod Corrected
pub mod Numbers
