-- ===== src/Examples.antt =====
-- The theorems applied to concrete data.
pub mod Data
mod Queues
mod Links
mod Nodes
mod Gateways
mod Drivers
mod Systems
mod Lights
mod Cleanups
mod Procs
mod Masks
mod Paths
mod Starts
mod Threads
mod Worlds
mod Devices
mod Pools
