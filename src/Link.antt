-- ===== src/Link.antt =====
-- Client and service put together: a call of src/client/client.c, over a session at whose other end
-- `pp_nextMsg` of src/server/server.c handles the message.
pub mod Words
pub mod Calls
pub mod Transmit
pub mod Answer
pub mod Transmitted
pub mod Release
pub mod Connect
pub mod ConnectAnswer
pub mod Connected
pub mod Establish
pub mod Established
pub mod Readers
pub mod Listed
pub mod Change
pub mod Fixed
pub mod Others
pub mod Session
pub mod Application
pub mod Sockets
pub mod Status
pub mod Control
pub mod Attrib
pub mod AttribCalls
use pcsc_proxy_android.Prelude.{
  le→leb, lt→ltb, false, Bool, leb, ltb, ◌&&◌, if◌then◌else◌, ℕ, ◌+◌, ◌≤◌, ◌<◌, ◌≡◌, refl, ◌∙◌, ap,
  Option, none, some, arith, true,
}
use pcsc_proxy_android.Memory.{Bytes, zeroed, load32, store8, store32}
use pcsc_proxy_android.Message.Layout.{header_type, max_message_len}
use pcsc_proxy_android.Message.Command.{Command, code, command_of}
use pcsc_proxy_android.Message.Command.Laws.{command_of-code}
use pcsc_proxy_android.Transport.{RecvStatus, received, disconnected, failed, SendStatus, sent}
use pcsc_proxy_android.Server.Pcsc.{Pcsc}
use pcsc_proxy_android.Server.Dispatch.{answer, handle}
use pcsc_proxy_android.Server.Loop.{msg_len, arrived}
use pcsc_proxy_android.Client.State.{
  ClientContext, Client, Tls, TlsOpts, Result, done, undefined, hangs,
}
use pcsc_proxy_android.Client.Exchange.{
  Network, context_at, transfer, exchange_session, transfer_received, pp_exchange_msg,
}

-- The service's side: its library, what its message buffer holds before a request arrives, and the
-- answer that is on its way (`none` once it has left on a message of no known type).
pub record Service (P : Type 0) : Type 0 where
  pub library : P
  pub stack : Bytes
  pub reply : Option Bytes

-- the length test of the receive functions
abbrev pub fits : Bytes → Bool
fits m = leb 5 (msg_len m) && ltb (msg_len m) max_message_len

pub fits-accepted : (m : Bytes) → 5 ≤ msg_len m → msg_len m < max_message_len → fits m ≡ true
fits-accepted m a b = rw (le→leb 5 (msg_len m) a, lt→ltb (msg_len m) max_message_len b) refl

module _ {P : Type 0} (lib : Pcsc P) where
  -- A request that the receive function of the service refuses ends the connection.
  handle_request : Service P → Bytes → Service P
  handle_request v m =
      if fits m
      then (elim (answer lib v.library (arrived v.stack m)) [
        | none ↦ record v { reply = none }
        | some (p, y) ↦ record v { library = p; reply = some y }
      ])
      else record v { reply = none }

  take_reply : Service P → Bytes → Service P × Bytes × RecvStatus
  take_reply v m = elim v.reply [
    | none ↦ (v, m, disconnected)
    | some y ↦
        if fits y
        then (record v { reply = none }, arrived m y, received (msg_len y))
        else (record v { reply = none }, m, failed)
  ]

  -- A session that carries every message whole that the other side accepts, as one over sockets does
  -- that do not fail (compare Transport.RoundTrip and Server.Loop).
  unfoldable pub direct : TlsOpts (Service P)
  unfolding handle_request take_reply
  direct = record {
    init_client = λ v. (v, some 0);
    fini_client = λ v t. v;
    client_set_srp_auth = λ v t name password. (v, true);
    init_client_session = λ v t sock. (v, some 0);
    fini_client_session = λ v t s. v;
    recv = λ v s m. take_reply v m;
    send = λ v s m. (handle_request v m, sent);
    get_socket = λ v s. 0;
  }

  pub answer-handle :
      (c : Command) (p : P) (x : Bytes)
      → x header_type ≡ code c
      → answer lib p x ≡ some (handle lib c p x)
  unfolding answer
  answer-handle c p x e = rw (e, answer) (rw (command_of-code c, answer) refl)

  sent_then :
      (v : Service P) (m y : Bytes) (p : P)
      → fits m ≡ true
      → fits y ≡ true
      → answer lib v.library (arrived v.stack m) ≡ some (p, y)
      → take_reply (handle_request v m) m
        ≡ (record { library = p; stack = v.stack; reply = none }, arrived m y, received (msg_len y))
  unfolding take_reply handle_request
  sent_then v m y p a b f = rw (a, handle_request) (rw (f, handle_request) (rw b refl))

  pub transfer-direct :
      (net : Network (Service P)) (g : Tls) (c : Client (Service P)) (s : ℕ) (m y : Bytes) (p : P)
      → fits m ≡ true
      → fits y ≡ true
      → c.tlsopts ≡ some g
      → answer lib c.world.library (arrived c.world.stack m) ≡ some (p, y)
      → transfer net (λ t. direct) s m c
        ≡ done
            (some (arrived m y))
            (record c { world = record { library = p; stack = c.world.stack; reply = none } })
  unfolding direct
  transfer-direct net g c s m y p fm fy a f =
      let t = sent_then c.world m y p fm fy f in
      transfer_received net (λ t. direct) g c s (msg_len y) m (arrived m y) a refl (ap (λ k. k.2) t)
        (ap (λ k. k.1) t)
      ∙ ap (λ w. done (some (arrived m y)) (record c { world = w })) (ap (λ k. k.0) t)

  -- An exchange over such a session brings the handler's answer back.
  pub exchange_direct :
      (net : Network (Service P)) (g : Tls) (c : Client (Service P)) (i s : ℕ) (x : ClientContext)
      (m y : Bytes) (p : P)
      → fits m ≡ true
      → fits y ≡ true
      → c.tlsopts ≡ some g
      → context_at i c ≡ done x c
      → x.tls_session ≡ some s
      → answer lib c.world.library (arrived c.world.stack m) ≡ some (p, y)
      → pp_exchange_msg net (λ t. direct) i m c
        ≡ done
            (some (arrived m y))
            (record c { world = record { library = p; stack = c.world.stack; reply = none } })
  exchange_direct net g c i s x m y p fm fy a d e f =
      exchange_session net (λ t. direct) c i s x m d e ∙ transfer-direct net g c s m y p fm fy a f
