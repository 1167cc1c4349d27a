-- ===== src/Gateway.antt =====
-- The gateway: `gateway (eth)_gateway/`.
pub mod Send
pub mod Address
pub mod State
pub mod Schedule
pub mod Transmit
pub mod Produce
pub mod Receive
pub mod Step
pub mod Flow
pub mod Frame
pub mod Stall
pub mod Tokens
pub mod Acks
pub mod Desync
pub mod Unacked
pub mod Timeout
pub mod Masks
