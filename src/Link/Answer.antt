-- ===== src/Link/Answer.antt =====
-- The service's part of `SCardTransmit`: `handleTransmit` of src/server/server.c and its answer.
use pcsc_proxy_android.Prelude.{
  ℕ, ◌+◌, ◌-◌, ◌≤◌, ◌<◌, ◌≡◌, refl, ◌∙◌, ap, Option, arith, length, le→ltb,
}
use pcsc_proxy_android.Memory.{Bytes, load32, store32, store_bytes, load_bytes}
use pcsc_proxy_android.Memory.Laws.{
  load_bytes_eq, load_bytes-store_bytes, load32-store32, store32_outside,
}
use pcsc_proxy_android.Message.Layout.{header_len, msg_size, transmit}
use pcsc_proxy_android.Message.Fields.{
  transmit_recv_pci_protocol, transmit_recv_pci_length, transmit_rv, transmit_buffer_length,
  transmit_buffer,
}
use pcsc_proxy_android.Message.Command.{Command}
use pcsc_proxy_android.Server.Pcsc.{Pcsc, IoRequest, Answer, sign_extend}
use pcsc_proxy_android.Server.Lengths.{handle_transmit, transmit_checked, clamp, max_data_length}
use pcsc_proxy_android.Server.Dispatch.{handle}
use pcsc_proxy_android.Server.Loop.{msg_len, arrived}
use pcsc_proxy_android.Client.State.{CardContext}
use pcsc_proxy_android.Link.Words.{load32-arrived, arrived_byte}
use pcsc_proxy_android.Link.Calls.{word}
use pcsc_proxy_android.Link.Transmit.{IsTransmit, pci_words, past}

pub arrived-IsTransmit :
    (stack m : Bytes) (k : CardContext) (pci : IoRequest) (send : Bytes) (n : ℕ)
    (recv : Option IoRequest) (room : ℕ)
    → IsTransmit k pci send n recv room m
    → IsTransmit k pci send n recv room (arrived stack m)
arrived-IsTransmit stack m k pci send n recv room t = record {
  kind = arrived_byte stack m 0 (omega (arith, t.size)) ∙ t.kind;
  size = at 1 (omega arith) ∙ t.size;
  card = at 5 (omega arith) ∙ t.card;
  send_protocol = at 9 (omega arith) ∙ t.send_protocol;
  send_length = at 13 (omega arith) ∙ t.send_length;
  recv_protocol = at 17 (omega arith) ∙ t.recv_protocol;
  recv_length = at 21 (omega arith) ∙ t.recv_length;
  count = at 33 (omega arith) ∙ t.count;
  room_there = at 25 (omega arith) ∙ t.room_there;
  bytes =
      load_bytes_eq (arrived stack m) m 37 n
        (λ q a b. arrived_byte stack m q (omega (arith, t.size)))
      ∙ t.bytes;
}
  where
    at : (o : ℕ) → o + 4 ≤ 37 → load32 (arrived stack m) o ≡ load32 m o
    at o h = load32-arrived stack m o (omega (arith, t.size))

-- the message after the library's answer
abbrev pub reply_of : {P : Type 0} → Bytes → P × ℕ × IoRequest × Answer → P × Bytes
reply_of x (p, res, pci, a) =
    let m1 = store32 (store_bytes x transmit_buffer a.bytes) transmit_buffer_length a.size in
    let m2 =
      store32 (store32 m1 transmit_recv_pci_protocol pci.protocol) transmit_recv_pci_length
        pci.pci_length in
    (
      p,
      store32 (store32 m2 header_len (msg_size transmit + load32 m2 transmit_buffer_length - 1))
          transmit_rv res,
    )

-- What the client asks of the library.
abbrev pub transmission :
    {P : Type 0}
    → Pcsc P
    → P
    → CardContext
    → IoRequest
    → Bytes
    → ℕ
    → Option IoRequest
    → ℕ
    → P × ℕ × IoRequest × Answer
transmission lib p k pci send n recv room =
    lib.transmit p (sign_extend (word k.pcsc_handle))
      (record { protocol = word pci.protocol; pci_length = word pci.pci_length })
      (load_bytes send 0 n) (pci_words recv) (clamp max_data_length (word room))

module _ {P : Type 0} (lib : Pcsc P) where
  pub handle_transmit_eq :
      (p : P) (x : Bytes) (k : CardContext) (pci : IoRequest) (send : Bytes) (n : ℕ)
      (recv : Option IoRequest) (room : ℕ)
      → n < 66523
      → IsTransmit k pci send n recv room x
      → handle lib Command.transmit p x ≡ reply_of x (transmission lib p k pci send n recv room)
  unfolding handle handle_transmit transmit_checked
  handle_transmit_eq p x k pci send n recv room h t =
      rw (t.count, le→ltb max_data_length n (omega arith))
        (ap (reply_of x) (
          rw
            (
              t.card, t.send_protocol, t.send_length, t.recv_protocol, t.recv_length, t.room_there,
              t.bytes,
            )
            refl))

pub clamp_room : (room : ℕ) → clamp max_data_length (word room) ≤ room
clamp_room room = ground arith

-- What the client finds in the answer that carries `a`.
pub record IsAnswer (res : ℕ) (pci : IoRequest) (a : Answer) (m : Bytes) : Type 0 where
  pub size : msg_len m ≡ 37 + a.size
  pub count : load32 m transmit_buffer_length ≡ a.size
  pub protocol : load32 m transmit_recv_pci_protocol ≡ word pci.protocol
  pub pci_length : load32 m transmit_recv_pci_length ≡ word pci.pci_length
  pub result : load32 m transmit_rv ≡ word res
  pub bytes : load_bytes m transmit_buffer a.size ≡ a.bytes

pub reply-IsAnswer :
    {P : Type 0} (x : Bytes) (r : P × ℕ × IoRequest × Answer)
    → r.3.size ≡ length r.3.bytes
    → r.3.size < 66523
    → IsAnswer r.1 r.2 r.3 (reply_of x r).1
reply-IsAnswer x (p, res, pci, a) e h = record {
  size = past _ _ _ 1 (omega arith) (load32-store32 _ _ _ ∙ omega (arith, count2));
  count = past _ _ _ 33 (omega arith) (past _ _ _ 33 (omega arith) count2);
  protocol =
      past _ _ _ 17 (omega arith)
        (past _ _ _ 17 (omega arith) (past _ _ _ 17 (omega arith) (load32-store32 _ _ _)));
  pci_length = past _ _ _ 21 (omega arith) (past _ _ _ 21 (omega arith) (load32-store32 _ _ _));
  result = load32-store32 _ _ _;
  bytes =
      load_bytes_eq _ (store_bytes x 37 a.bytes) 37 a.size (λ q l u.
        store32_outside _ 29 _ q (omega arith)
        ∙ store32_outside _ 1 _ q (omega arith)
        ∙ store32_outside _ 21 _ q (omega arith)
        ∙ store32_outside _ 17 _ q (omega arith)
        ∙ store32_outside _ 33 _ q (omega arith))
      ∙ ap (load_bytes (store_bytes x 37 a.bytes) 37) e
      ∙ load_bytes-store_bytes x 37 a.bytes;
}
  where
    m1 : Bytes
    m1 = store32 (store_bytes x 37 a.bytes) 33 a.size

    count2 : load32 (store32 (store32 m1 17 pci.protocol) 21 pci.pci_length) 33 ≡ a.size
    count2 =
        past _ _ _ 33 (omega arith)
          (past _ _ _ 33 (omega arith) (load32-store32 _ _ _ ∙ omega arith))

pub arrived-IsAnswer :
    (m y : Bytes) (res : ℕ) (pci : IoRequest) (a : Answer)
    → IsAnswer res pci a y
    → IsAnswer res pci a (arrived m y)
arrived-IsAnswer m y res pci a t = record {
  size = at 1 (omega arith) ∙ t.size;
  count = at 33 (omega arith) ∙ t.count;
  protocol = at 17 (omega arith) ∙ t.protocol;
  pci_length = at 21 (omega arith) ∙ t.pci_length;
  result = at 29 (omega arith) ∙ t.result;
  bytes =
      load_bytes_eq (arrived m y) y 37 a.size (λ q l u. arrived_byte m y q (omega (arith, t.size)))
      ∙ t.bytes;
}
  where
    at : (o : ℕ) → o + 4 ≤ 37 → load32 (arrived m y) o ≡ load32 y o
    at o h = load32-arrived m y o (omega (arith, t.size))
