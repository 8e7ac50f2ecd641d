-- ===== src/Transport/RoundTrip.antt =====
-- A message sent by one side and received by the other; and what an interrupted `recv` does.
use pcsc_proxy_android.Prelude.{
  ℕ, ◌≤◌, ◌<◌, ◌≡◌, refl, ap, ◌∙◌, List, [], ◌∷◌, ◌++◌, arith, length, inr,
}
use mathlib.Core.Path.{subst}
use mathlib.Core.List.{append-nil}
use pcsc_proxy_android.Memory.{Bytes, load32, store_bytes, load_bytes}
use pcsc_proxy_android.Memory.Laws.{
  AgreeBelow, AgreeFrom, store_bytes-load_bytes, store_bytes_outside, length-load_bytes,
}
use pcsc_proxy_android.Message.Layout.{max_message_len, header_len}
use pcsc_proxy_android.Transport.{
  RecvEvent, arrives, interrupted, Writer, received, sent, nullenc_tls_recv, nullenc_tls_send,
}
use pcsc_proxy_android.Transport.Recv.{Steady, Arrived, recv-Arrived}
use pcsc_proxy_android.Transport.Send.{takers, send_whole}

-- A message that one side sends over a fresh stream is what the other side receives: `send` reports
-- success, `recv` returns the length, the receiver's buffer agrees with the sender's on the message
-- and is unchanged behind it. The writes and the reads may split the bytes differently; there must
-- be as many of each as there are bytes, and no read may fail or be interrupted.
pub recv-send :
    (w : Writer) (src m : Bytes) (es : List RecvEvent)
    → w.outbound ≡ []
    → 5 ≤ load32 src header_len
    → load32 src header_len < max_message_len
    → load32 src header_len ≤ takers w.events
    → Steady es
    → load32 src header_len ≤ length es
    → let s = nullenc_tls_send w src in
      let r = nullenc_tls_recv (record { inbound = s.writer.outbound; events = es }) m in
      (s.status ≡ sent)
      × (r.status ≡ received (load32 src header_len))
      × (r.reader.inbound ≡ [])
      × AgreeBelow (load32 src header_len) r.memory src
      × AgreeFrom (load32 src header_len) r.memory m
recv-send w src m es e lo hi t s h =
    let (done, out) = send_whole w src t in
    rw (out ∙ ap (λ l. l ++ load_bytes src 0 len) e) (done, a.returned, a.stream, below, behind)
  where
    len : ℕ
    len = load32 src header_len

    a :
        Arrived src m [] es
          (nullenc_tls_recv (record { inbound = load_bytes src 0 len; events = es }) m)
    a =
        subst (λ l. Arrived src m [] es (nullenc_tls_recv (record { inbound = l; events = es }) m))
          (append-nil (load_bytes src 0 len)) (recv-Arrived src m [] es lo hi s h)

    below :
        (q : ℕ)
        → q < len
        → (nullenc_tls_recv (record { inbound = load_bytes src 0 len; events = es }) m).memory q
          ≡ src q
    below q l = rw a.stored (store_bytes-load_bytes src m 0 len q (omega arith) (omega arith))

    behind :
        (q : ℕ)
        → len ≤ q
        → (nullenc_tls_recv (record { inbound = load_bytes src 0 len; events = es }) m).memory q
          ≡ m q
    behind q l = rw a.stored (
        store_bytes_outside m 0 (load_bytes src 0 len) q
          (inr (omega (arith, length-load_bytes src 0 len))))

-- A `recv` that is interrupted once it has the first byte of a message forgets that byte: it goes on
-- as if the stream began with the second one.
pub recv_interrupted :
    (b : ℕ) (inb : List ℕ) (es : List RecvEvent) (m : Bytes)
    → nullenc_tls_recv (record { inbound = b ∷ inb; events = arrives 0 ∷ interrupted ∷ es }) m
      ≡ nullenc_tls_recv (record { inbound = inb; events = es }) (store_bytes m 0 (b ∷ []))
unfolding nullenc_tls_recv
recv_interrupted b inb es m = refl
