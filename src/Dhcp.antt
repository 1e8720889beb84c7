-- ===== src/Dhcp.antt =====
-- The DHCP part: the option codec and the lease server.
pub mod Packet
pub mod Frame
pub mod Options
pub mod Types
pub mod Leases
mod Tests
