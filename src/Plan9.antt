-- ===== src/Plan9.antt =====
-- 9P2000: pyroute2/plan9.
pub mod Utf8
pub mod Reader
pub mod Codec
pub mod Messages
pub mod Filesystem
pub mod Server
