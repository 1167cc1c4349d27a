-- ===== src/VlcTx.antt =====
-- The VLC transmitter: `VLC TX1 (Eth)_vlc_tx/`.
pub mod Wire
pub mod Rounds
pub mod Driver
pub mod Pool
pub mod Linked
pub mod Quality
pub mod Packets
pub mod Cleanup
pub mod Proc
pub mod Init
