-- ===== src/Link/Change.antt =====
-- `SCardGetStatusChange`: the reader states in a message, from the application to the library and back.
pub mod Put
pub mod Get
pub mod Changed
