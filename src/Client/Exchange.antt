-- ===== src/Client/Exchange.antt =====
-- `pp_exchangeMsg` of src/client/client.c: a message is sent and the reply is received in its place.
-- A context is the index of its slot. How the address of the service is found and connected to
-- is the parameter `connect`, which Address fills in; `close` is the system call.
use pcsc_proxy_android.Prelude.{
  ap, ◌≡◌, arith, ℕ, Option, none, some, List, ◌==◌, if◌then◌else◌, get_elem?, set,
}
use pcsc_proxy_android.Memory.{Bytes}
use pcsc_proxy_android.Message.Layout.{header_type}
use pcsc_proxy_android.Message.Command.{Command, code}
use pcsc_proxy_android.Transport.{
  RecvStatus, received, disconnected, failed, SendStatus, sent, unsent,
}
use pcsc_proxy_android.Client.State.{
  Client, ClientContext, CardContext, Tls, TlsOpts, Result, done, undefined, hangs, M, pure, ◌>>=◌,
}

pub record Network (W : Type 0) : Type 0 where
  pub connect : W → Result W (Option ℕ)
  pub close : W → ℕ → W

module _ {W : Type 0} where
  -- What a pointer to a context or a card shows; NULL for an array that is not there is undefined.
  unfoldable pub context_at : ℕ → M W ClientContext
  context_at i c = elim c.contexts [
    | none ↦ undefined
    | some xs ↦ elim (get_elem? xs i) [ none ↦ undefined | some x ↦ done x c ]
  ]

  unfoldable pub card_at : ℕ → M W CardContext
  card_at i c = elim c.cards [
    | none ↦ undefined
    | some xs ↦ elim (get_elem? xs i) [ none ↦ undefined | some x ↦ done x c ]
  ]

  -- stores through such a pointer
  unfoldable pub store_context : ℕ → ClientContext → M W (Unit {0})
  store_context i x c = elim c.contexts [
    | none ↦ undefined
    | some xs ↦ done tt (record c { contexts = some (set xs i x) })
  ]

  unfoldable pub store_card : ℕ → CardContext → M W (Unit {0})
  store_card i x c = elim c.cards [
    | none ↦ undefined
    | some xs ↦ done tt (record c { cards = some (set xs i x) })
  ]

  module _ (net : Network W) (tls : Tls → TlsOpts W) where
    -- The reply, or `none` for a negative result. The receive result 0, by which the peer has
    -- closed the connection, is not negative: the message then is what the buffer holds.
    unfoldable pub transfer : ℕ → Bytes → M W (Option Bytes)
    transfer session m c = elim c.tlsopts [
      | none ↦ undefined
      | some g ↦
          let (w, st) = TlsOpts.send (tls g) c.world session m in
          elim st [
            | unsent ↦ done none (record c { world = w })
            | SendStatus.waiting ↦ hangs
            | sent ↦
                let (w', m', st') = TlsOpts.recv (tls g) w session m in
                elim st' [
                  | received n ↦ done (some m') (record c { world = w' })
                  | disconnected ↦ done (some m') (record c { world = w' })
                  | failed ↦ done none (record c { world = w' })
                  | RecvStatus.waiting ↦ hangs
                ]
          ]
    ]

    -- `init_client_session` on the connected socket; the socket is closed where it fails.
    unfoldable pub start_session : ℕ → ClientContext → ℕ → M W (Option ℕ)
    start_session i x sock c = elim c.tlsopts [
      | none ↦ undefined
      | some g ↦ elim x.tls_context [
        | none ↦ undefined
        | some t ↦
            let (w, s) = TlsOpts.init_client_session (tls g) c.world t sock in
            elim s [
              | none ↦ done none (record c { world = net.close w sock })
              | some k ↦
                  (store_context i (record x { tls_session = some k }) >>= λ _. pure (some k))
                    (record c { world = w })
            ]
      ]
    ]

    unfoldable pub connect_session : ℕ → ClientContext → M W (Option ℕ)
    connect_session i x c = elim (net.connect c.world) [
      | undefined ↦ undefined
      | hangs ↦ hangs
      | done r w ↦ elim r [
        | none ↦ done none (record c { world = w })
        | some sock ↦ start_session i x sock (record c { world = w })
      ]
    ]

    -- Where there is a session, the message is exchanged over it.
    unfoldable pub over_session : Bytes → Option ℕ → M W (Option Bytes)
    unfolding transfer
    over_session m none = pure none
    over_session m (some s) = transfer s m

    -- `pp_exchangeMsg`
    unfoldable pub pp_exchange_msg : ℕ → Bytes → M W (Option Bytes)
    unfolding over_session
    pp_exchange_msg i m = context_at i >>= λ x. elim x.tls_session [
      | some s ↦ over_session m (some s)
      | none ↦
          if m header_type == code Command.establish_context
          then (connect_session i x >>= over_session m)
          else pure none
    ]

    -- With a session there, an exchange is one send and one receive.
    pub exchange_session :
        (c : Client W) (i s : ℕ) (x : ClientContext) (m : Bytes)
        → context_at i c ≡ done x c
        → x.tls_session ≡ some s
        → pp_exchange_msg i m c ≡ transfer s m c
    unfolding pp_exchange_msg over_session
    exchange_session c i s x m d e = ground arith

    -- Without one, the first message is exchanged over the session that it opens.
    pub exchange_connect :
        (c c' : Client W) (i s : ℕ) (x : ClientContext) (m : Bytes)
        → context_at i c ≡ done x c
        → x.tls_session ≡ none
        → m header_type ≡ code Command.establish_context
        → connect_session i x c ≡ done (some s) c'
        → pp_exchange_msg i m c ≡ transfer s m c'
    unfolding pp_exchange_msg over_session
    exchange_connect c c' i s x m d e k f = ground arith

    pub connect_session_eq :
        (c : Client W) (i t sock s : ℕ) (x : ClientContext) (xs : List ClientContext) (g : Tls)
        (w w' : W)
        → c.contexts ≡ some xs
        → c.tlsopts ≡ some g
        → x.tls_context ≡ some t
        → net.connect c.world ≡ done (some sock) w
        → TlsOpts.init_client_session (tls g) w t sock ≡ (w', some s)
        → connect_session i x c
          ≡ done (some s) (record c {
            contexts = some (set xs i (record x { tls_session = some s }));
            world = w';
          })
    unfolding connect_session start_session store_context
    connect_session_eq c i t sock s x xs g w w' a b d e f = ground arith

    pub transfer_received :
        (g : Tls) (c : Client W) (s n : ℕ) (m m' : Bytes)
        → c.tlsopts ≡ some g
        → (TlsOpts.send (tls g) c.world s m).1 ≡ sent
        → let r = TlsOpts.recv (tls g) (TlsOpts.send (tls g) c.world s m).0 s m in
          r.2 ≡ received n → r.1 ≡ m' → transfer s m c ≡ done (some m') (record c { world = r.0 })
    unfolding transfer
    transfer_received g c s n m m' a b e f =
        rw (a, transfer)
          (rw b (
            rw e (
              rw f (
                ap
                  (λ o. done (some m') (record c {
                    tlsopts = o;
                    world = (TlsOpts.recv (tls g) (TlsOpts.send (tls g) c.world s m).0 s m).0;
                  }))
                  a))))
