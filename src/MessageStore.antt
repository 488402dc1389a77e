-- ===== src/MessageStore.antt =====
-- libkd/src/MessageStore.cc: what a client keeps of messages, in memory and on the local disk.
pub mod Memory
pub mod Files
pub mod Crypt
pub mod Store
pub mod Replace
pub mod Kept
