-- ===== src/Tests.antt =====
-- Sample packets and configurations, and the theorems at them.
pub mod Packets
pub mod Sums
pub mod Tables
pub mod Paths
mod Messages
pub mod Files
mod Translation
pub mod Loop
mod Statistics
mod Rollup
mod Values
