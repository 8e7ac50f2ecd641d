-- ===== src/Lib.antt =====
-- Verification of the C parts of the PC/SC proxy: a client library that stands in for libpcsclite
-- sends each call as a message to a service, which calls the real library and sends the message back
-- with the results filled in.
--
-- The parts and their files:
-- - Message: the wire format of src/common/message.h. Layout has the packed structs as lists of field
--   sizes (`s_connect` is `connect`, `PP_MSG_SIZE` is `msg_size`), Fields one place for each member
--   that the code names (`msg->connectStruct.hCard` is `connect_card`), Command the enumeration of
--   message types with `pp_getMsgTypeText` (src/common/message.c), Dump the text of `pp_dumpString`.
-- - Memory: the bytes that an `s_message` pointer leads to, with stores and loads of 32-bit
--   little-endian words and of byte strings. A store past the 65 KiB buffer is possible in the model,
--   so that its absence is a statement about the code.
-- - Transport: the receive and send loops of src/common/nullenc.c (`nullenc_tls_recv`,
--   `nullenc_tls_send`) over a list of what the system calls answer: how many bytes they move, EINTR,
--   an error, or the end of the stream. Recv, Send, Bounds and RoundTrip are about them; Others has
--   the functions of network.c, openssl.c and tls.c, which have the same statements. A loop ends with
--   the list of answers at the latest; `waiting` is the status where the list has run out.
-- - Sockets: Calls is the interface of the socket calls, with the hypotheses on what they do to the
--   descriptors; Network, Unix and Bluetooth are src/common/network.c, unix.c and bluetooth.c
--   (`pp_listen`, `pp_uxconnect`, `pp_btlisten` and so on), Choice is src/common/netopts.c, Numbers
--   the C library's `atoi`. Balance is about the descriptors that they leave open, Names about
--   ports and Bluetooth addresses, Rendezvous about a service and a client on Unix sockets.
-- - Tls: the set-up of contexts and sessions, Openssl for src/common/openssl.c, Nullenc for
--   src/common/nullenc.c and Gnutls for src/common/tls.c. Calls is the interface of OpenSSL with the
--   hypotheses on the objects that it makes and frees (that of GnuTLS stands in Gnutls); Objects and
--   Remains are about what the set-up of a session leaves behind.
-- - Server: src/server/server.c. Pcsc is the interface of the PC/SC library that the service calls, a
--   record of its functions that the handlers take as a parameter; Handlers, Lengths and StatusChange
--   have one function for each `handle...` function, Dispatch `pp_nextMsg` and `pp_handleConnection`.
--   Frame and Safety are about where the handlers write, Loop about a whole connection. Options is
--   the command line of `main`, Daemon the signals and the accept loop on a list of events, Child the
--   service process, Main `main` as a whole; Parent and Descriptors are about the process that accepts,
--   Child/Served about a service process whose client closes, Main/Listens about a server that waits,
--   as Main/Waiting describes it, with the defaults of its settings in Main/Defaults.
-- - Client: src/client/client.c. State has the global variables, the two arrays among them, as a
--   record, and the monad in which the functions run: a call returns, does something that C leaves
--   undefined, or waits for ever. Slots is the search in an array of 64 slots, Tables has
--   `pp_findContext` to `pp_releaseCard` with the choice of the TLS operations
--   (src/common/tlsopts.c), Exchange has `pp_exchangeMsg`, Address the choice of the service's address
--   in it (Address/Directed describes the environment, Address/Reaches is about the connection), and
--   Calls the `SCard...` functions, which Api has as one type. Keeps has rules by which a
--   function that is built of others keeps the tables in order, and goes through all of them; its
--   Reached is about the states that an application can bring the client to. The TLS operations
--   (src/common/tlsopts.h) are the record `TlsOpts`, which the functions take as a parameter.
-- - Link: a client and a service put together over a session that carries whole messages (`direct`).
--   Words, Fixed, Transmit, Answer, Connect, ConnectAnswer and Attrib follow the words and bytes of a
--   message through both buffers, Change the reader states of `SCardGetStatusChange`, Establish the
--   request for a context, and Readers the lists of readers and of groups. Calls, Transmitted,
--   Connected, Established, Listed, Release, Status, Control, AttribCalls and Others are about whole
--   calls; Session is about any number of them on a card, and Application about a program from its
--   first call on. Sockets has a session over two byte streams (`over_sockets`), with the receive and
--   send loops of src/common/nullenc.c at both ends.
-- - Pcsctest: the test program src/client/pcsctest.c. Texts is the walk over a list of texts, Reports
--   what a library has to answer; Names and Groups put the program, the client and the service
--   together.
-- - Tests: runs on concrete messages, tables and streams.
--
-- Numbers are natural numbers; a store into a `uint32_t` keeps the remainder by 2 ^ 32, and arguments
-- of the library calls are 64-bit words, as on Linux. The loop of `pp_handleConnection` has a bound on
-- its rounds: `none` is the result where the bound is used up, and one round more than there are
-- messages is enough for a connection that the client closes.
--
-- Not modelled: the debug output of the macros DEBUGP, which only produces text, and the calls of
-- `pp_dumpString` by the client, whose text changes no state (the text itself is in Message/Dump);
-- `pcsc_stringify_error`, a copy of a function of pcsc-lite; and the threads of an application that uses
-- the client library at the same time, but for what a mutex that is left locked does to later calls.
-- The system calls, the resolver, OpenSSL, GnuTLS, BlueZ and the PC/SC library are parameters.
pub mod Prelude
pub mod Memory
pub mod Message
pub mod Transport
pub mod Sockets
pub mod Tls
pub mod Server
pub mod Client
pub mod Link
pub mod Pcsctest
pub mod Tests
