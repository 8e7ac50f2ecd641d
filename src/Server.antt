-- ===== src/Server.antt =====
-- The service on the machine with the readers: src/server/server.c.
pub mod Pcsc
pub mod Handlers
pub mod Lengths
pub mod StatusChange
pub mod Dispatch
pub mod Frame
pub mod Safety
pub mod Loop
pub mod Options
pub mod Daemon
pub mod Parent
pub mod Descriptors
pub mod Child
pub mod Main
