-- ===== src/Link/Transmit.antt =====
-- `SCardTransmit` from the application's buffer to the card and back.
use pcsc_proxy_android.Prelude.{
  ℕ, ◌+◌, ◌-◌, ◌≤◌, ◌<◌, ◌≡◌, refl, sym, ◌∙◌, ap, inl, inr, ◌⊎◌, Option, none, some, List, arith,
}
use pcsc_proxy_android.Memory.{zeroed, store8, Bytes, load32, store32, store_bytes, load_bytes}
use pcsc_proxy_android.Memory.Laws.{
  load_bytes_eq, load_bytes-store_bytes, load32-store32, load32-store32_apart,
  load32-store_bytes_apart, length-load_bytes, store32_outside, store_bytes_outside,
}
use pcsc_proxy_android.Message.Layout.{header_type, header_len, msg_size, transmit}
use pcsc_proxy_android.Message.Fields.{
  transmit_card, transmit_send_pci_protocol, transmit_send_pci_length, transmit_recv_pci_protocol,
  transmit_recv_pci_length, transmit_recv_length, transmit_buffer_length, transmit_buffer,
}
use pcsc_proxy_android.Message.Command.{Command, code}
use pcsc_proxy_android.Server.Pcsc.{IoRequest}
use pcsc_proxy_android.Server.Loop.{msg_len}
use pcsc_proxy_android.Client.State.{CardContext}
use pcsc_proxy_android.Client.Calls.{request}
use pcsc_proxy_android.Client.Calls.Buffers.{transmit_request, store_pci}
use pcsc_proxy_android.Link.Words.{IsRequest, request-IsRequest, store32-IsRequest}
use pcsc_proxy_android.Link.Calls.{word}

-- A word seen past a store that does not touch it.
pub past :
    {k : ℕ} (m : Bytes) (o v q : ℕ)
    → (o + 4 ≤ q) ⊎ (q + 4 ≤ o)
    → load32 m q ≡ k
    → load32 (store32 m o v) q ≡ k
past m o v q h e = load32-store32_apart m o q v h ∙ e

-- a word in front of a copy of bytes
pub before :
    {k : ℕ} (m : Bytes) (o : ℕ) (xs : List ℕ) (q : ℕ)
    → q + 4 ≤ o
    → load32 m q ≡ k
    → load32 (store_bytes m o xs) q ≡ k
before m o xs q h e = load32-store_bytes_apart m o q xs (inr h) ∙ e

-- The words of `pioRecvPci` as they reach the service: zero where there is none.
abbrev pub pci_words : Option IoRequest → IoRequest
pci_words none = record { protocol = 0; pci_length = 0 }
pci_words (some q) = record { protocol = word q.protocol; pci_length = word q.pci_length }

pci_past :
    {k : ℕ} (m : Bytes) (recv : Option IoRequest) (q : ℕ)
    → (q + 4 ≤ 17) ⊎ (25 ≤ q)
    → load32 m q ≡ k
    → load32 (store_pci m recv) q ≡ k
pci_past m none q h e = e
pci_past m (some r) q h e = past _ _ _ q (omega arith) (past _ _ _ q (omega arith) e)

pci_byte :
    (m : Bytes) (recv : Option IoRequest) (q : ℕ) → (q < 17) ⊎ (25 ≤ q) → store_pci m recv q ≡ m q
pci_byte m none q h = refl
pci_byte m (some r) q h =
    store32_outside _ _ _ q (omega arith) ∙ store32_outside _ _ _ q (omega arith)

pci_protocol :
    (m : Bytes) (recv : Option IoRequest)
    → load32 m transmit_recv_pci_protocol ≡ 0
    → load32 (store_pci m recv) transmit_recv_pci_protocol ≡ (pci_words recv).protocol
pci_protocol m none e = e
pci_protocol m (some r) e = past _ _ _ _ (omega arith) (load32-store32 _ _ _)

pci_length :
    (m : Bytes) (recv : Option IoRequest)
    → load32 m transmit_recv_pci_length ≡ 0
    → load32 (store_pci m recv) transmit_recv_pci_length ≡ (pci_words recv).pci_length
pci_length m none e = e
pci_length m (some r) e = load32-store32 _ _ _

pub blank : (c : Command) (n o : ℕ) → 5 ≤ o → load32 (request c n) o ≡ 0
unfolding load32 store8
blank c n o h =
    load32-store32_apart (store8 zeroed 0 (code c)) header_len o n (inl (omega arith))
    ∙ ground arith

-- What the service finds in a request for a transmission of the `n` bytes at `send`.
pub record IsTransmit (k : CardContext) (pci : IoRequest) (send : Bytes) (n : ℕ)
    (recv : Option IoRequest) (room : ℕ) (m : Bytes) : Type 0 where
  pub kind : m header_type ≡ code Command.transmit
  pub size : msg_len m ≡ 37 + n
  pub card : load32 m transmit_card ≡ word k.pcsc_handle
  pub send_protocol : load32 m transmit_send_pci_protocol ≡ word pci.protocol
  pub send_length : load32 m transmit_send_pci_length ≡ word pci.pci_length
  pub recv_protocol : load32 m transmit_recv_pci_protocol ≡ (pci_words recv).protocol
  pub recv_length : load32 m transmit_recv_pci_length ≡ (pci_words recv).pci_length
  pub count : load32 m transmit_buffer_length ≡ n
  pub room_there : load32 m transmit_recv_length ≡ word room
  pub bytes : load_bytes m transmit_buffer n ≡ load_bytes send 0 n

pub transmit_request-IsTransmit :
    (k : CardContext) (pci : IoRequest) (send : Bytes) (n : ℕ) (recv : Option IoRequest) (room : ℕ)
    → n < 66523
    → IsTransmit k pci send n recv room (transmit_request k pci send n recv room)
transmit_request-IsTransmit k pci send n recv room h = record {
  kind =
      store32_outside _ _ _ 0 (omega arith)
      ∙ pci_byte m5 recv 0 (omega arith)
      ∙ store_bytes_outside m4 37 bs 0 (omega arith)
      ∙ q4.kind;
  size =
      past _ _ _ _ (omega arith)
        (pci_past m5 recv 1 (omega arith) (before m4 37 bs 1 (omega arith) q4.size))
      ∙ omega arith;
  card = late 5 (omega arith) (
      past _ _ _ _ (omega arith)
        (past _ _ _ _ (omega arith) (past _ _ _ _ (omega arith) (load32-store32 _ _ _))));
  send_protocol =
      late 9 (omega arith)
        (past _ _ _ _ (omega arith) (past _ _ _ _ (omega arith) (load32-store32 _ _ _)));
  send_length = late 13 (omega arith) (past _ _ _ _ (omega arith) (load32-store32 _ _ _));
  recv_protocol =
      past _ _ _ _ (omega arith)
        (pci_protocol m5 recv (before m4 37 bs 17 (omega arith) (empty 17 (omega arith))));
  recv_length =
      past _ _ _ _ (omega arith)
        (pci_length m5 recv (before m4 37 bs 21 (omega arith) (empty 21 (omega arith))));
  count = late 33 (omega arith) (load32-store32 _ _ _ ∙ omega arith);
  room_there = load32-store32 _ _ _;
  bytes =
      load_bytes_eq _ m5 37 n
        (λ q a b. store32_outside _ _ _ q (omega arith) ∙ pci_byte m5 recv q (omega arith))
      ∙ ap (load_bytes m5 37) (sym (length-load_bytes send 0 n))
      ∙ load_bytes-store_bytes m4 37 bs;
}
  where
    bs : List ℕ
    bs = load_bytes send 0 n

    m1 : Bytes
    m1 = store32 (request Command.transmit (msg_size transmit + n - 1)) transmit_card k.pcsc_handle

    m4 : Bytes
    m4 =
        store32
          (store32 (store32 m1 transmit_send_pci_protocol pci.protocol) transmit_send_pci_length
            pci.pci_length)
          transmit_buffer_length n

    m5 : Bytes
    m5 = store_bytes m4 37 bs

    q4 : IsRequest Command.transmit (msg_size transmit + n - 1) m4
    q4 = store32-IsRequest _ _ _ _ _ (omega arith) (
        store32-IsRequest _ _ _ _ _ (omega arith) (
          store32-IsRequest _ _ _ _ _ (omega arith) (
            store32-IsRequest _ _ _ _ _ (omega arith)
              (request-IsRequest Command.transmit (msg_size transmit + n - 1) (omega arith)))))

    late :
        {v : ℕ} (q : ℕ)
        → (q + 4 ≤ 17) ⊎ ((29 ≤ q) × (q + 4 ≤ 37))
        → load32 m4 q ≡ v
        → load32 (store32 (store_pci m5 recv) transmit_recv_length room) q ≡ v
    late q a e =
        past _ _ _ q (omega arith)
          (pci_past m5 recv q (omega arith) (before m4 37 bs q (omega arith) e))

    empty : (q : ℕ) → (17 ≤ q) × (q + 4 ≤ 33) → load32 m4 q ≡ 0
    empty q a = past _ _ _ q (omega arith) (
        past _ _ _ q (omega arith) (
          past _ _ _ q (omega arith)
            (past _ _ _ q (omega arith) (blank Command.transmit _ q (omega arith)))))
