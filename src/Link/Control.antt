-- ===== src/Link/Control.antt =====
-- `SCardControl` from the application to the library and back.
use native.Mathlib.Nat.{le_trans}
use pcsc_proxy_android.Prelude.{
  ℕ, ◌+◌, ◌≤◌, ◌≡◌, refl, sym, ◌∙◌, ap, inl, inr, ◌⊎◌, some, arith, length, le→ltb,
}
use pcsc_proxy_android.Memory.{Bytes, load32, store32, store_bytes, load_bytes}
use pcsc_proxy_android.Memory.Laws.{
  load_bytes_eq, load_bytes-store_bytes, load32-store32, store32_outside, store_bytes_outside,
  length-load_bytes,
}
use pcsc_proxy_android.Message.Layout.{max_buffer_len}
use pcsc_proxy_android.Message.Fields.{
  control_card, control_code, control_send_buffer, control_send_length, control_recv_buffer,
  control_recv_length, control_bytes_returned, control_rv,
}
use pcsc_proxy_android.Message.Command.{Command}
use pcsc_proxy_android.Server.Pcsc.{Pcsc, Answer, IsBounded, sign_extend}
use pcsc_proxy_android.Server.Lengths.{clamp, handle_control}
use pcsc_proxy_android.Server.Dispatch.{handle}
use pcsc_proxy_android.Server.Loop.{arrived, msg_len}
use pcsc_proxy_android.Client.State.{CardContext, Client, Environment, done, bind-done}
use pcsc_proxy_android.Client.Exchange.{Network, pp_exchange_msg}
use pcsc_proxy_android.Client.Calls.{request, with_card-done}
use pcsc_proxy_android.Client.Calls.Buffers.{ControlOut, control_request, scard_control}
use pcsc_proxy_android.Link.{Service, direct}
use pcsc_proxy_android.Link.Words.{load32-arrived, IsRequest, request-IsRequest, store32-IsRequest}
use pcsc_proxy_android.Link.Calls.{word, OnCard, exchanged}
use pcsc_proxy_android.Link.Transmit.{past}
use pcsc_proxy_android.Link.Fixed.{beside, load_bytes-arrived, exchange_fixed}

-- What the client asks of the library: the `n` bytes at `send`, for an answer of `room` bytes.
abbrev pub control_asked :
    {P : Type 0} → Pcsc P → P → CardContext → (ccode : ℕ) → Bytes → (n room : ℕ) → P × ℕ × Answer
control_asked lib p k ccode send n room =
    lib.control p (sign_extend (word k.pcsc_handle)) (word ccode) (load_bytes send 0 n)
      (clamp max_buffer_len room)

fitting :
    (room : ℕ)
    → (word (clamp max_buffer_len room) ≡ clamp max_buffer_len room)
      × (clamp max_buffer_len room ≤ 4096)
fitting room = ground arith

module _ (k : CardContext) (ccode : ℕ) (send : Bytes) (n room : ℕ) (h : n ≤ 4096) where
  -- the message before the bytes are copied into it
  abbrev words : Bytes
  words =
      store32
        (store32
          (store32 (store32 (request Command.control 8221) control_card k.pcsc_handle) control_code
            ccode)
          control_send_length n)
        control_recv_length (clamp max_buffer_len room)

  abbrev asking : Bytes
  asking = control_request k ccode (some send) n room

  short : length (load_bytes send 0 n) ≡ n
  short = length-load_bytes send 0 n

  words-IsRequest : IsRequest Command.control 8221 words
  words-IsRequest = store32-IsRequest _ _ _ _ _ (omega arith) (
      store32-IsRequest _ _ _ _ _ (omega arith) (
        store32-IsRequest _ _ _ _ _ (omega arith) (
          store32-IsRequest _ _ _ _ _ (omega arith)
            (request-IsRequest Command.control 8221 (omega arith)))))

  asking-IsRequest : IsRequest Command.control 8221 asking
  asking-IsRequest = record {
    kind = store_bytes_outside words 13 _ 0 (inl (omega arith)) ∙ words-IsRequest.kind;
    size = beside words 13 _ 1 (inr (omega arith)) words-IsRequest.size;
  }

  module _ (stack : Bytes) where
    at :
        (o : ℕ)
        → o + 4 ≤ 8221
        → (o + 4 ≤ 13) ⊎ (4109 ≤ o)
        → load32 (arrived stack asking) o ≡ load32 words o
    at o b a =
        load32-arrived stack asking o (omega (arith, asking-IsRequest.size))
        ∙ beside words 13 _ o (omega (arith, short)) refl

    came_card : load32 (arrived stack asking) control_card ≡ word k.pcsc_handle
    came_card =
        at control_card (omega arith) (omega arith)
        ∙ past _ _ _ _ (omega arith)
            (past _ _ _ _ (omega arith) (past _ _ _ _ (omega arith) (load32-store32 _ _ _)))

    came_code : load32 (arrived stack asking) control_code ≡ word ccode
    came_code =
        at control_code (omega arith) (omega arith)
        ∙ past _ _ _ _ (omega arith) (past _ _ _ _ (omega arith) (load32-store32 _ _ _))

    came_length : load32 (arrived stack asking) control_send_length ≡ n
    came_length =
        at control_send_length (omega arith) (omega arith)
        ∙ past _ _ _ _ (omega arith) (load32-store32 _ _ _)
        ∙ omega arith

    came_room : load32 (arrived stack asking) control_recv_length ≡ clamp max_buffer_len room
    came_room =
        at control_recv_length (omega arith) (omega arith) ∙ load32-store32 _ _ _ ∙ (fitting room).0

    came_bytes : load_bytes (arrived stack asking) control_send_buffer n ≡ load_bytes send 0 n
    came_bytes =
        load_bytes-arrived stack asking 13 n (omega (arith, asking-IsRequest.size))
        ∙ ap (load_bytes asking 13) (sym short)
        ∙ load_bytes-store_bytes words 13 (load_bytes send 0 n)

-- the message after the library's answer
abbrev control_answer : Bytes → ℕ → Answer → Bytes
control_answer z res a =
    store32 (store32 (store_bytes z control_recv_buffer a.bytes) control_bytes_returned a.size)
      control_rv res

module _ {P : Type 0} (lib : Pcsc P) where
  handle_control_eq :
      (p : P) (stack : Bytes) (k : CardContext) (ccode : ℕ) (send : Bytes) (n room : ℕ)
      → n ≤ 4096
      → let r = control_asked lib p k ccode send n room in
        let z = arrived stack (control_request k ccode (some send) n room) in
        handle lib Command.control p z ≡ (r.0, control_answer z r.1 r.2)
  unfolding handle handle_control
  handle_control_eq p stack k ccode send n room h =
      ap
        (λ (w : ℕ × ℕ × ℕ × ℕ).
          let r = lib.control p (sign_extend w.0) w.1 (load_bytes z control_send_buffer w.2) w.3 in
          (r.0, control_answer z r.1 r.2))
        (λ i. (
          came_card k ccode send n room h stack i,
          came_code k ccode send n room h stack i,
          came_length k ccode send n room h stack i,
          came_room k ccode send n room h stack i,
        ))
      ∙ ap
          (λ xs.
            let r =
              lib.control p (sign_extend (word k.pcsc_handle)) (word ccode) xs
                (clamp max_buffer_len room) in
            (r.0, control_answer z r.1 r.2))
          (came_bytes k ccode send n room h stack)
    where
      z : Bytes
      z = arrived stack (control_request k ccode (some send) n room)

-- What `SCardControl` gives the application of the library's answer.
abbrev pub controlled : {P : Type 0} → P × ℕ × Answer → ControlOut
controlled (p, res, a) = record { rv = word res; bytes = a.bytes; returned = some (length a.bytes) }

-- the copy of the answer's fields, which the client makes without a test
reply_out : Bytes → ControlOut
reply_out m = record {
  rv = load32 m control_rv;
  bytes = load_bytes m control_recv_buffer (load32 m control_bytes_returned);
  returned = some (load32 m control_bytes_returned);
}

module _ (m z : Bytes) (res : ℕ) (a : Answer) (sized : msg_len z ≡ 8221) (f : length a.bytes ≤ 4096)
    (e : a.size ≡ length a.bytes) where
  control_answer_len : msg_len (control_answer z res a) ≡ 8221
  control_answer_len =
      past _ _ _ 1 (omega arith)
        (past _ _ _ 1 (omega arith) (beside z 4113 _ 1 (inr (omega arith)) sized))

  answered : load32 (arrived m (control_answer z res a)) control_bytes_returned ≡ length a.bytes
  answered =
      load32-arrived m _ control_bytes_returned (omega (arith, control_answer_len))
      ∙ past _ _ _ _ (omega arith) (load32-store32 _ _ _)
      ∙ omega arith

  carried :
      load_bytes (arrived m (control_answer z res a)) control_recv_buffer (length a.bytes) ≡ a.bytes
  carried =
      load_bytes-arrived m _ 4113 (length a.bytes) (omega (arith, control_answer_len))
      ∙ load_bytes_eq _ (store_bytes z 4113 a.bytes) 4113 (length a.bytes) (λ q l u.
        store32_outside _ 8217 _ q (omega arith) ∙ store32_outside _ 8213 _ q (omega arith))
      ∙ load_bytes-store_bytes z 4113 a.bytes

  reply-controlled :
      {P : Type 0} (p : P) → reply_out (arrived m (control_answer z res a)) ≡ controlled (p, res, a)
  unfolding reply_out
  reply-controlled p = λ i. record {
    rv =
        (load32-arrived m (control_answer z res a) control_rv (omega (arith, control_answer_len))
            ∙ load32-store32 _ _ _)
          i;
    bytes =
        (ap (load_bytes (arrived m (control_answer z res a)) control_recv_buffer) answered
            ∙ carried)
          i;
    returned = some (answered i);
  }

module _ {P : Type 0} (lib : Pcsc P) (fits : IsBounded lib) (env : Environment)
    (net : Network (Service P)) where
  -- `SCardControl` on a connected card, with a buffer of at most 4096 bytes to send, and against a
  -- library that reports how many bytes it gives: the library at the other end is asked once, for the
  -- handle that the card notes, with the code as a 32-bit word and exactly the bytes of the buffer,
  -- for at most as much as the application and the message have room for; the application gets its
  -- result and exactly its bytes, with their number; nothing else of the client changes.
  pub scard_control-controlled :
      (id : ℕ) (k : CardContext) (c : Client (Service P)) (ccode : ℕ) (send : Bytes) (n room : ℕ)
      → OnCard env id k c
      → n ≤ 4096
      → let r = control_asked lib c.world.library k ccode send n room in
        r.2.size ≡ length r.2.bytes
        → scard_control env net (λ t. direct lib) id ccode (some send) n room c
          ≡ done (controlled r) (exchanged c r.0)
  unfolding scard_control reply_out
  scard_control-controlled id k c ccode send n room h l e =
      with_card-done env id h.slot _ _ k c h.found h.card
      ∙ rw (le→ltb max_buffer_len n l) (
          bind-done (pp_exchange_msg net (λ t. direct lib) k.client_context m) _
            (some (arrived m y)) c (exchanged c r.0)
            (exchange_fixed lib env net h Command.control 8221 m y r.0
              (asking-IsRequest k ccode send n room l) (omega arith)
              (control_answer_len m z r.1 r.2 sized short e)
              (handle_control_eq lib c.world.library c.world.stack k ccode send n room l)))
      ∙ ap (λ o. done o (exchanged c r.0)) (reply-controlled m z r.1 r.2 sized short e r.0)
    where
      m : Bytes
      m = control_request k ccode (some send) n room

      z : Bytes
      z = arrived c.world.stack m

      r : P × ℕ × Answer
      r = control_asked lib c.world.library k ccode send n room

      y : Bytes
      y = control_answer z r.1 r.2

      short : length r.2.bytes ≤ 4096
      short = le_trans (fits.control_fits c.world.library _ _ _ _) (fitting room).1

      sized : msg_len z ≡ 8221
      sized =
          load32-arrived c.world.stack m 1
            (omega (arith, (asking-IsRequest k ccode send n room l).size))
          ∙ (asking-IsRequest k ccode send n room l).size
