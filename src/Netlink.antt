-- ===== src/Netlink.antt =====
-- Messages, attributes and sockets: pyroute2/netlink.
pub mod Nla
pub mod Marshal
pub mod Conversation
