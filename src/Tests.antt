-- ===== src/Tests.antt =====
-- Runs of the model on concrete messages, tables and streams.
mod Transport
mod Server
mod Client
mod Link
mod Sockets
mod Daemon
mod Establish
mod Tls
mod Program
mod Session
mod Streams
mod Served
mod Dump
