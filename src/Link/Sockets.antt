-- ===== src/Link/Sockets.antt =====
-- An exchange between client and service over two byte streams, with the receive and send loops of
-- src/common/nullenc.c at both ends: it brings what a session that carries whole messages brings.
use mathlib.Core.Path.{subst}
use mathlib.Core.List.{append-nil}
use pcsc_proxy_android.Prelude.{ℕ, ◌≤◌, ◌<◌, ◌≡◌, ◌∙◌, ap, some, List, [], ◌++◌, true, length}
use pcsc_proxy_android.Memory.{Bytes, load_bytes}
use pcsc_proxy_android.Message.Layout.{max_message_len}
use pcsc_proxy_android.Transport.{
  RecvEvent, SendEvent, Reader, Writer, received, sent, nullenc_tls_recv, nullenc_tls_send,
}
use pcsc_proxy_android.Transport.Recv.{Steady, Arrived, recv-Arrived}
use pcsc_proxy_android.Transport.Send.{takers, send_whole}
use pcsc_proxy_android.Server.Pcsc.{Pcsc}
use pcsc_proxy_android.Server.Dispatch.{Step, answer, pp_next_msg}
use pcsc_proxy_android.Server.Loop.{nullenc_session, next_answered, msg_len, arrived}
use pcsc_proxy_android.Client.State.{Client, Tls, TlsOpts, done}
use pcsc_proxy_android.Client.Exchange.{Network, transfer, transfer_received}

-- The answers of the system calls at both ends, in one exchange.
pub record Schedule : Type 0 where
  pub client_writes : List SendEvent
  pub service_reads : List RecvEvent
  pub service_writes : List SendEvent
  pub client_reads : List RecvEvent

-- The service, and the bytes that it has sent and that the client has not read.
pub record Wire (P : Type 0) : Type 0 where
  pub library : P
  pub stack : Bytes
  pub downstream : List ℕ

-- The schedule lets `n` bytes through to the service and `l` back: no read fails or is interrupted, and
-- there are as many reads, and writes that take something, as there are bytes.
pub record Carries (k : Schedule) (n l : ℕ) : Type 0 where
  pub written : n ≤ takers k.client_writes
  pub steady : Steady k.service_reads
  pub read : n ≤ length k.service_reads
  pub written_back : l ≤ takers k.service_writes
  pub steady_back : Steady k.client_reads
  pub read_back : l ≤ length k.client_reads

module _ {P : Type 0} (lib : Pcsc P) (k : Schedule) where
  -- One round of `pp_handleConnection` on the bytes that the client has sent.
  serve_bytes : Wire P → List ℕ → Wire P
  serve_bytes v bytes =
      let step =
        pp_next_msg lib nullenc_session
          (
            record { inbound = bytes; events = k.service_reads },
            record { outbound = []; events = k.service_writes },
          )
          v.library v.stack in
      record v { library = step.library; downstream = v.downstream ++ step.session.1.outbound }

  unfoldable pub over_sockets : TlsOpts (Wire P)
  unfolding serve_bytes
  over_sockets = record {
    init_client = λ v. (v, some 0);
    fini_client = λ v t. v;
    client_set_srp_auth = λ v t name password. (v, true);
    init_client_session = λ v t sock. (v, some 0);
    fini_client_session = λ v t s. v;
    recv = λ v s m.
        let r = nullenc_tls_recv (record { inbound = v.downstream; events = k.client_reads }) m in
        (record v { downstream = r.reader.inbound }, r.memory, r.status);
    send = λ v s m.
        let t = nullenc_tls_send (record { outbound = []; events = k.client_writes }) m in
        (serve_bytes v t.writer.outbound, t.status);
    get_socket = λ v s. 0;
  }

  -- a message that is the whole stream
  alone :
      (src m : Bytes) (es : List RecvEvent)
      → (5 ≤ msg_len src) × (msg_len src < max_message_len)
      → Steady es
      → msg_len src ≤ length es
      → Arrived src m [] es
          (nullenc_tls_recv (record { inbound = load_bytes src 0 (msg_len src); events = es }) m)
  alone src m es b s h =
      subst (λ l. Arrived src m [] es (nullenc_tls_recv (record { inbound = l; events = es }) m))
        (append-nil (load_bytes src 0 (msg_len src))) (recv-Arrived src m [] es b.0 b.1 s h)

  module _ (v : Wire P) (m y : Bytes) (p : P) (empty : v.downstream ≡ [])
      (fm : (5 ≤ msg_len m) × (msg_len m < max_message_len))
      (fy : (5 ≤ msg_len y) × (msg_len y < max_message_len)) (c : Carries k (msg_len m) (msg_len y))
      (a : answer lib v.library (arrived v.stack m) ≡ some (p, y)) where
    served_so :
        serve_bytes v (load_bytes m 0 (msg_len m))
        ≡ record { library = p; stack = v.stack; downstream = load_bytes y 0 (msg_len y) }
    unfolding serve_bytes
    served_so =
        let came = alone m v.stack k.service_reads fm c.steady c.read in
        let whole =
          send_whole (record { outbound = []; events = k.service_writes }) y c.written_back in
        ap
          (λ (s : Step (Reader × Writer) P). record v {
            library = s.library;
            downstream = v.downstream ++ s.session.1.outbound;
          })
          (next_answered lib nullenc_session _ v.library p v.stack (arrived v.stack m) y (msg_len m)
            came.returned came.stored a whole.0)
        ∙ (λ i. record { library = p; stack = v.stack; downstream = empty i ++ whole.1 i })

  -- the client's part, on the service's answer
  came_back :
      (v : Wire P) (m y : Bytes) (p : P)
      → v.downstream ≡ []
      → (5 ≤ msg_len m) × (msg_len m < max_message_len)
      → (5 ≤ msg_len y) × (msg_len y < max_message_len)
      → Carries k (msg_len m) (msg_len y)
      → answer lib v.library (arrived v.stack m) ≡ some (p, y)
      → let t = nullenc_tls_send (record { outbound = []; events = k.client_writes }) m in
        let w = serve_bytes v t.writer.outbound in
        let r = nullenc_tls_recv (record { inbound = w.downstream; events = k.client_reads }) m in
        (t.status ≡ sent)
        × (r.status ≡ received (msg_len y))
        × (r.memory ≡ arrived m y)
        × (record w { downstream = r.reader.inbound }
            ≡ record { library = p; stack = v.stack; downstream = [] })
  came_back v m y p empty fm fy c a =
      let whole = send_whole (record { outbound = []; events = k.client_writes }) m c.written in
      let served = ap {A = List ℕ} (serve_bytes v) whole.1 ∙ served_so v m y p empty fm fy c a in
      let back = alone y m k.client_reads fy c.steady_back c.read_back in
      let read = λ (w : Wire P).
        nullenc_tls_recv (record { inbound = w.downstream; events = k.client_reads }) m in
      (
        whole.0,
        ap (λ (w : Wire P). (read w).status) served ∙ back.returned,
        ap (λ (w : Wire P). (read w).memory) served ∙ back.stored,
        ap (λ (w : Wire P). record w { downstream = (read w).reader.inbound }) served
            ∙ (λ i. record { library = p; stack = v.stack; downstream = back.stream i }),
      )

  -- An exchange over two byte streams, whose calls carry the request to a service that waits for it and
  -- the answer back, returns the answer of the message handler, and nothing is left on the streams:
  -- requests and answers have between 5 and max_message_len - 1 bytes.
  pub transfer-over_sockets :
      (net : Network (Wire P)) (g : Tls) (c : Client (Wire P)) (s : ℕ) (m y : Bytes) (p : P)
      → c.tlsopts ≡ some g
      → c.world.downstream ≡ []
      → (5 ≤ msg_len m) × (msg_len m < max_message_len)
      → (5 ≤ msg_len y) × (msg_len y < max_message_len)
      → Carries k (msg_len m) (msg_len y)
      → answer lib c.world.library (arrived c.world.stack m) ≡ some (p, y)
      → transfer net (λ t. over_sockets) s m c
        ≡ done
            (some (arrived m y))
            (record c { world = record { library = p; stack = c.world.stack; downstream = [] } })
  unfolding over_sockets
  transfer-over_sockets net g c s m y p e empty fm fy b a =
      let r = came_back c.world m y p empty fm fy b a in
      transfer_received net (λ t. over_sockets) g c s (msg_len y) m (arrived m y) e r.0 r.1 r.2
      ∙ ap (λ w. done (some (arrived m y)) (record c { world = w })) r.3
