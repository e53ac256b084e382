-- ===== src/Dhcp.antt =====
-- The DHCP client of pyroute2/dhcp.
pub mod Fsm
pub mod Xids
pub mod Leases
pub mod Messages
pub mod Machine
pub mod Client
pub mod Options
