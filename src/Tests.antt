-- ===== src/Tests.antt =====
-- Concrete inputs on which the theorems of the other modules are applied.
pub mod Toy
pub mod Tables
pub mod Sessions
pub mod Requests
pub mod Limits
pub mod Json
pub mod JsonLaws
pub mod Crypto
pub mod Exchange
pub mod Files
pub mod Signups
