-- ===== src/Transport.antt =====
-- The receive and send loops that all four transports share, over what the system calls answer:
-- `nullenc_tls_recv` and `nullenc_tls_send` of src/common/nullenc.c, `pp_recv` and `pp_send` of
-- src/common/network.c, `ossl_tls_recv` and `ossl_tls_send` of src/common/openssl.c, and
-- `pp_tls_recv` and `pp_tls_send` of src/common/tls.c have the same text but for the call that moves
-- bytes (`recv`, `read`, `SSL_read`, `gnutls_record_recv`, and their counterparts).
pub mod Recv
pub mod Send
pub mod Bounds
pub mod RoundTrip
pub mod Others
use pcsc_proxy_android.Prelude.{
  ℕ, zero, suc, ◌+◌, ◌-◌, Bool, true, false, List, [], ◌∷◌, ◌++◌, leb, ◌==◌, if◌then◌else◌, length,
  take, drop, min,
}
use pcsc_proxy_android.Memory.{Bytes, load32, store_bytes, load_bytes}
use pcsc_proxy_android.Message.Layout.{max_message_len, msg_header, header_len, size_of}

-- What one call of `recv(2)` answers: at most `k + 1` of the bytes asked for, -1 with `EINTR`, or -1
-- with another error. At the end of the stream a call answers 0 (and `arrives` stands for it).
pub data RecvEvent : Type 0 where
  arrives : ℕ → RecvEvent
  interrupted broken : RecvEvent

-- The bytes that the peer will have sent before it closes, and the answers to come.
pub record Reader : Type 0 where
  pub inbound : List ℕ
  pub events : List RecvEvent

pub data Progress : Type 0 where
  filled eof underflow lost pending : Progress

-- where a loop stands when it is left
pub record Fill : Type 0 where
  pub progress : Progress
  pub reader : Reader
  pub count : ℕ
  pub memory : Bytes

abbrev stop : Progress → List RecvEvent → List ℕ → ℕ → Bytes → Fill
stop p es inb n m = record {
  progress = p;
  reader = record { inbound = inb; events = es };
  count = n;
  memory = m;
}

-- `while (bytesRead < target)`, with `n` for `bytesRead` and for `p - (char*) msg`. Where `retry` is
-- set, an interrupted call does not leave the loop: the code goes on with `bytesRead+=i; p+=i;` at
-- i = -1. From 0 that makes `bytesRead` -1, which the comparison with a `size_t` reads as a huge
-- number: the loop ends by its test, with less than nothing received (`underflow`).
-- `pending` means that the answers listed have run out: the call still waits.
pub fill : Bool → ℕ → List RecvEvent → List ℕ → ℕ → Bytes → Fill
fill retry target [] inb n m =
    if leb target n then stop filled [] inb n m else stop pending [] inb n m
fill retry target (arrives k ∷ es) inb n m = elim (leb target n) [
  | true ↦ stop filled (arrives k ∷ es) inb n m
  | false ↦ elim inb [
    | [] ↦ stop eof es [] n m
    | b ∷ bs ↦
        let chunk = take (min (target - n) (suc k)) (b ∷ bs) in
        fill retry target es (drop (length chunk) (b ∷ bs)) (n + length chunk)
          (store_bytes m n chunk)
  ]
]
fill retry target (interrupted ∷ es) inb n m = elim (leb target n) [
  | true ↦ stop filled (interrupted ∷ es) inb n m
  | false ↦ elim retry [
    | true ↦ elim n [ zero ↦ stop underflow es inb 0 m | suc k ↦ fill true target es inb k m ]
    | false ↦ stop lost es inb n m
  ]
]
fill retry target (broken ∷ es) inb n m = elim (leb target n) [
  | true ↦ stop filled (broken ∷ es) inb n m
  | false ↦ stop lost es inb n m
]

-- The `int` that a receive function returns: the number of bytes, 0, or -1; or it does not return.
pub data RecvStatus : Type 0 where
  received : ℕ → RecvStatus
  disconnected failed waiting : RecvStatus

pub record Received : Type 0 where
  pub status : RecvStatus
  pub reader : Reader
  pub memory : Bytes

abbrev give : RecvStatus → Fill → Received
give s f = record { status = s; reader = f.reader; memory = f.memory }

after_payload : Fill → Received
after_payload f = elim f.progress [
  | filled ↦ give (received f.count) f
  | pending ↦ give waiting f
  | _ ↦ give failed f
]

payload : Fill → Received
unfolding after_payload
payload f =
    let len = load32 f.memory header_len in
    if leb max_message_len len
    then give failed f
    else after_payload (fill false len f.reader.events f.reader.inbound f.count f.memory)

-- After the header loop. An `underflow` gets past the length check or fails it, skips the payload
-- loop (-1 is not below any unsigned length) and is returned: -1 in both cases.
after_header : Fill → Received
unfolding payload
after_header f = elim f.progress [
  | filled ↦ payload f
  | eof ↦ elim f.count [ zero ↦ give disconnected f | suc k ↦ give failed f ]
  | pending ↦ give waiting f
  | _ ↦ give failed f
]

-- `nullenc_tls_recv`
unfoldable pub nullenc_tls_recv : Reader → Bytes → Received
unfolding fill after_header
nullenc_tls_recv r m = after_header (fill true (size_of msg_header) r.events r.inbound 0 m)

-- What one call of `send(2)` answers: it takes at most `k` of the bytes offered (0 too), -1 with
-- `EINTR`, or -1 with another error.
pub data SendEvent : Type 0 where
  accepts : ℕ → SendEvent
  again refused : SendEvent

pub record Writer : Type 0 where
  pub outbound : List ℕ
  pub events : List SendEvent

pub data SendStatus : Type 0 where
  sent unsent waiting : SendStatus

pub record Sent : Type 0 where
  pub status : SendStatus
  pub writer : Writer

abbrev end_send : SendStatus → List SendEvent → List ℕ → Sent
end_send s es out = record { status = s; writer = record { outbound = out; events = es } }

-- `while (bytesLeft)`, with `p` the offset of the next byte
pub send_loop : List SendEvent → ℕ → ℕ → Bytes → List ℕ → Sent
send_loop [] left p m out =
    if left == 0 then end_send sent [] out else end_send SendStatus.waiting [] out
send_loop (accepts k ∷ es) left p m out = elim (left == 0) [
  | true ↦ end_send sent (accepts k ∷ es) out
  | false ↦ let c = min left k in send_loop es (left - c) (p + c) m (out ++ load_bytes m p c)
]
send_loop (again ∷ es) left p m out = elim (left == 0) [
  | true ↦ end_send sent (again ∷ es) out
  | false ↦ send_loop es left p m out
]
send_loop (refused ∷ es) left p m out = elim (left == 0) [
  | true ↦ end_send sent (refused ∷ es) out
  | false ↦ end_send unsent es out
]

-- `nullenc_tls_send`. `int bytesLeft` holds `header.len` as it is below 2 ^ 31; no caller sends more.
unfoldable pub nullenc_tls_send : Writer → Bytes → Sent
unfolding send_loop
nullenc_tls_send w m = send_loop w.events (load32 m header_len) 0 m w.outbound
