-- ===== src/Ndb.antt =====
-- The network database: pyroute2/ndb.
pub mod Transaction
pub mod Events
pub mod Object
