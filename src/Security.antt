-- ===== src/Security.antt =====
-- kds/src/security: the revocation list, the three predicates, their factory and the filter chain.
pub mod Blacklist
pub mod Predicates
pub mod Chain
pub mod Logout
pub mod Gate
pub mod Admission
