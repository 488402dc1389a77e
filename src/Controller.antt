-- ===== src/Controller.antt =====
-- kds/src/controller/Controller.cc.
pub mod RateLimit
pub mod Validation
pub mod Session
pub mod Auth
pub mod Conversations
pub mod Messages
pub mod Routes
pub mod Keeps
pub mod Resolver
pub mod Requests
pub mod System
pub mod Admission
