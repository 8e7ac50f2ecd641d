-- ===== src/Tests/Transport.antt =====
-- A five-byte and a seven-byte message on streams that are cut differently (src/common/nullenc.c).
use pcsc_proxy_android.Prelude.{◌≡◌, refl, List, [], ◌∷◌, ◌++◌, arith, get_or}
use pcsc_proxy_android.Memory.{Bytes, zeroed, load32, load_bytes, store_bytes}
use pcsc_proxy_android.Memory.Laws.{AgreeBelow, AgreeFrom}
use pcsc_proxy_android.Message.Layout.{max_message_len, header_len}
use pcsc_proxy_android.Transport.{
  RecvEvent, arrives, interrupted, Reader, Writer, received, sent, accepts, again, refused,
  nullenc_tls_recv, nullenc_tls_send,
}
use pcsc_proxy_android.Transport.Recv.{Arrived, recv-Arrived}
use pcsc_proxy_android.Transport.Bounds.{recv-AgreeFrom, recv-Counts, Counts}
use pcsc_proxy_android.Transport.Send.{SentPrefix, send-SentPrefix, send_whole}
use pcsc_proxy_android.Transport.RoundTrip.{recv-send, recv_interrupted}

-- a message of type 6 with two bytes of payload
abbrev seven : Bytes
seven q = get_or (6 ∷ 7 ∷ 0 ∷ 0 ∷ 0 ∷ 80 ∷ 81 ∷ []) q 0

abbrev reads : List RecvEvent
reads = arrives 0 ∷ arrives 2 ∷ arrives 9 ∷ arrives 0 ∷ arrives 0 ∷ arrives 3 ∷ arrives 0 ∷ []

abbrev slow_writer : Writer
slow_writer = record {
  outbound = [];
  events =
      accepts 0
      ∷ accepts 1
      ∷ again
      ∷ accepts 1
      ∷ accepts 3
      ∷ accepts 1
      ∷ accepts 1
      ∷ accepts 1
      ∷ accepts 1
      ∷ refused
      ∷ [];
}

abbrev short_reader : Reader
short_reader = record { inbound = 6 ∷ 7 ∷ 0 ∷ 0 ∷ 0 ∷ 80 ∷ 81 ∷ 9 ∷ []; events = reads }

seven_arrives : (nullenc_tls_recv short_reader zeroed).status ≡ received 7
unfolding nullenc_tls_recv load32 store_bytes
seven_arrives = refl

recv-send_example :
    let s = nullenc_tls_send slow_writer seven in
    let r = nullenc_tls_recv (record { inbound = s.writer.outbound; events = reads }) zeroed in
    (s.status ≡ sent)
    × (r.status ≡ received (load32 seven header_len))
    × (r.reader.inbound ≡ [])
    × AgreeBelow (load32 seven header_len) r.memory seven
    × AgreeFrom (load32 seven header_len) r.memory zeroed
unfolding load32
recv-send_example =
    recv-send slow_writer seven zeroed reads refl (omega arith) (omega arith) (omega arith)
      (omega arith) (omega arith)

recv-Arrived_example : Arrived seven zeroed (9 ∷ []) reads (
    nullenc_tls_recv
      (record { inbound = load_bytes seven 0 (load32 seven header_len) ++ 9 ∷ []; events = reads })
      zeroed)
unfolding load32
recv-Arrived_example =
    recv-Arrived seven zeroed (9 ∷ []) reads (omega arith) (omega arith) (omega arith) (omega arith)

recv-AgreeFrom_example :
    AgreeFrom max_message_len (nullenc_tls_recv short_reader zeroed).memory zeroed
recv-AgreeFrom_example = recv-AgreeFrom short_reader zeroed

recv-Counts_example : Counts (nullenc_tls_recv short_reader zeroed) 7
recv-Counts_example = recv-Counts short_reader zeroed 7 seven_arrives

send-SentPrefix_example :
    SentPrefix (load32 seven header_len) 0 seven [] (nullenc_tls_send slow_writer seven)
send-SentPrefix_example = send-SentPrefix slow_writer seven

send_whole_example :
    ((nullenc_tls_send slow_writer seven).status ≡ sent)
    × ((nullenc_tls_send slow_writer seven).writer.outbound
        ≡ [] ++ load_bytes seven 0 (load32 seven header_len))
unfolding load32
send_whole_example = send_whole slow_writer seven (omega arith)

recv_interrupted_example :
    nullenc_tls_recv
      (record { inbound = 6 ∷ 7 ∷ 0 ∷ []; events = arrives 0 ∷ interrupted ∷ reads })
      zeroed
    ≡ nullenc_tls_recv
        (record { inbound = 7 ∷ 0 ∷ []; events = reads })
        (store_bytes zeroed 0 (6 ∷ []))
recv_interrupted_example = recv_interrupted 6 (7 ∷ 0 ∷ []) reads zeroed
