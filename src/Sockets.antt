-- ===== src/Sockets.antt =====
-- The sockets under a session: src/common/network.c, unix.c, bluetooth.c and netopts.c. The system
-- calls, the resolver and the Bluetooth library are parameters.
pub mod Calls
pub mod Network
pub mod Unix
pub mod Bluetooth
pub mod Choice
pub mod Balance
pub mod Names
pub mod Numbers
pub mod Rendezvous
