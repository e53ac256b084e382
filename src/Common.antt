-- ===== src/Common.antt =====
-- pyroute2/common.py: helpers that the whole library shares.
pub mod AddrPool
