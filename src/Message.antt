-- ===== src/Message.antt =====
-- The wire format of src/common/message.h, and the message types of src/common/message.c.
pub mod Dump
pub mod Layout
pub mod Command
pub mod Fields
