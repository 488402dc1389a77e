-- ===== src/Client.antt =====
-- libkd/src/Client.cc: the client of the server's HTTP interface.
pub mod Calls
pub mod Pinning
pub mod Session
pub mod KnownKeys
pub mod Pins
pub mod Routed
pub mod Cleanup
