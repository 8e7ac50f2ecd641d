-- ===== src/Client.antt =====
-- The replacement of libpcsclite on the other machine: src/client/client.c.
pub mod State
pub mod Api
pub mod Keeps
pub mod Slots
pub mod Tables
pub mod Exchange
pub mod Address
pub mod Calls
