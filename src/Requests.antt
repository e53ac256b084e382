-- ===== src/Requests.antt =====
-- Request filters: pyroute2/requests.
pub mod Processor
