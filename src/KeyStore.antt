-- ===== src/KeyStore.antt =====
-- libkd/src/LocalKeyStore.cc: the keys of a user on the local disk, the public bundle, and messages
-- that are encrypted for a bundle.
pub mod Encoding
pub mod Identity
pub mod Bundle
pub mod Files
pub mod Signup
pub mod Login
pub mod Outputs
pub mod Messages
pub mod OneTime
pub mod Loaded
pub mod Recorded
pub mod Reload
pub mod Fields
pub mod Agreements
pub mod Exchange
pub mod RoundTrip
pub mod Sending
pub mod Names
pub mod Signed
pub mod Checked
