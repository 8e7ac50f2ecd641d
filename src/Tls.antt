-- ===== src/Tls.antt =====
-- The set-up of contexts and sessions: src/common/openssl.c, src/common/nullenc.c and
-- src/common/tls.c. OpenSSL and GnuTLS are parameters.
pub mod Calls
pub mod Openssl
pub mod Nullenc
pub mod Gnutls
pub mod Objects
pub mod Remains
