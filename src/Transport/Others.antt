-- ===== src/Transport/Others.antt =====
-- The receive and send functions of src/common/network.c, src/common/openssl.c and src/common/tls.c.
-- Each has the statements of its counterpart in src/common/nullenc.c, with another call in the place
-- of `recv(2)` or `send(2)`: `read`, `SSL_read` and `gnutls_record_recv`, and `send`, `SSL_write` and
-- `gnutls_record_send`. The answers of that call are the events of the reader or writer.
use pcsc_proxy_android.Memory.{Bytes}
use pcsc_proxy_android.Transport.{
  Reader, Received, Writer, Sent, nullenc_tls_recv, nullenc_tls_send,
}

unfoldable pub pp_recv : Reader → Bytes → Received
pp_recv = nullenc_tls_recv

unfoldable pub pp_send : Writer → Bytes → Sent
pp_send = nullenc_tls_send

unfoldable pub ossl_tls_recv : Reader → Bytes → Received
ossl_tls_recv = nullenc_tls_recv

unfoldable pub ossl_tls_send : Writer → Bytes → Sent
ossl_tls_send = nullenc_tls_send

unfoldable pub pp_tls_recv : Reader → Bytes → Received
pp_tls_recv = nullenc_tls_recv

unfoldable pub pp_tls_send : Writer → Bytes → Sent
pp_tls_send = nullenc_tls_send
