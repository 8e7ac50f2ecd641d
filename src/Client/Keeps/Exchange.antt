-- ===== src/Client/Keeps/Exchange.antt =====
-- `pp_createContext`, `pp_createCard` and `pp_exchangeMsg` of src/client/client.c keep the tables in order.
use pcsc_proxy_android.Prelude.{
  ℕ, ◌+◌, ◌%◌, ◌^◌, ◌<◌, ◌≡◌, ◌≢◌, inl, inr, refl, ◌||◌, Option, none, some, List, arith, replicate,
  ◌==◌, if◌then◌else◌,
}
use pcsc_proxy_android.Memory.{Bytes}
use pcsc_proxy_android.Message.Layout.{header_type}
use pcsc_proxy_android.Message.Command.{Command, code}
use pcsc_proxy_android.Transport.{
  RecvStatus, received, disconnected, failed, SendStatus, sent, unsent,
}
use pcsc_proxy_android.Client.State.{
  pp_max_context, pp_context_magic, pp_card_magic, ClientContext, CardContext, Tls, TlsOpts,
  Environment, Client, Result, done, undefined, hangs, M, pure, ◌>>=◌, free_context, free_card,
}
use pcsc_proxy_android.Client.Slots.{IsTable, free_slot, free_slot-lt, replicate-IsTable}
use pcsc_proxy_android.Client.Tables.{
  context_id, card_id, is_blank, text_of, wants_nullenc, pp_tlsopts_init_any, take_card,
  pp_create_card, check_credentials, fill_context, take_context, with_tlsopts, pp_create_context,
}
use pcsc_proxy_android.Client.Tables.Laws.{IsValid}
use pcsc_proxy_android.Client.Exchange.{
  Network, context_at, store_context, transfer, start_session, connect_session, over_session,
  pp_exchange_msg,
}
use pcsc_proxy_android.Client.Keeps.{
  Ends, returned, lost, waits, Keeps, Any, Fits, Keeps->>=, Keeps-if, Keeps-pure, option-Ends,
  option-Ends_both, if-Ends, contexts-IsTable, cards-IsTable, context_written-IsTable,
  card_written-IsTable, new_contexts-IsValid, new_cards-IsValid, under_context_lock-Keeps,
  under_card_lock-Keeps, context_at-Keeps, store_context-Keeps,
}

in_word :
    {n : ℕ} (i magic : ℕ) → i < n → n ≡ 64 → magic < 4294967232 → (i + magic) % 2 ^ 32 ≡ i + magic
in_word i magic h e k = omega arith

-- The build has the TLS operations that the environment asks for.
abbrev pub Choosable : Environment → Type 0
Choosable env =
    (s : List ℕ) → env.nullenc_env ≡ some s → pp_tlsopts_init_any env (wants_nullenc s) ≢ none

module _ {W : Type 0} (env : Environment) where
  take_card-Ends :
      (ctx : ℕ) (xs : List CardContext) (c : Client W)
      → IsValid c
      → IsTable card_id pp_card_magic (some xs)
      → Ends Any (take_card {W = W} env ctx xs c)
  unfolding take_card
  take_card-Ends ctx xs c v t =
      option-Ends Any (free_slot card_id xs) _ _ (returned (new_cards-IsValid v t) tt) (λ i f.
        returned
          (new_cards-IsValid v (
            card_written-IsTable xs i _ t
              (inr (in_word i pp_card_magic (free_slot-lt card_id xs i f) t.0 (omega arith)))))
          tt)

  pub create_card-Keeps : (ctx : ℕ) → Keeps Any (pp_create_card {W = W} env ctx)
  unfolding pp_create_card
  create_card-Keeps ctx = under_card_lock-Keeps env none _ tt (record {
    ends = λ c v.
        option-Ends Any c.cards _ _
          (if-Ends Any env.malloc_ok _ _
            (take_card-Ends ctx (replicate pp_max_context free_card) c v
              (replicate-IsTable card_id pp_card_magic free_card refl))
            (returned v tt))
          (λ xs e. take_card-Ends ctx xs c v (cards-IsTable c xs v e));
  })

  module _ (tls : Tls → TlsOpts W) where
    credentials-Ends :
        (i : ℕ) (p : ClientContext) (xs : List ClientContext) (t : ℕ) (g : Tls) (c : Client W)
        → IsValid c
        → IsTable context_id pp_context_magic (some xs)
        → Fits context_id pp_context_magic i p
        → Ends Any (check_credentials env tls i p xs t g c)
    unfolding check_credentials
    credentials-Ends i p xs t g c v h f =
        if-Ends Any (is_blank env.user || is_blank env.passwd) _ _
          (returned (new_contexts-IsValid v (context_written-IsTable xs i _ h (inl refl))) tt)
          (if-Ends Any
            (TlsOpts.client_set_srp_auth (tls g) c.world t (text_of env.user)
              (text_of env.passwd)).1
            _ _ (returned (new_contexts-IsValid v (context_written-IsTable xs i _ h f)) tt)
            (returned (new_contexts-IsValid v (context_written-IsTable xs i _ h (inl refl))) tt))

    fill-Ends :
        (i : ℕ) (xs : List ClientContext) (g : Tls) (c : Client W)
        → IsValid c
        → IsTable context_id pp_context_magic (some xs)
        → i < pp_max_context
        → Ends Any (fill_context env tls i xs g c)
    unfolding fill_context
    fill-Ends i xs g c v h l =
        option-Ends Any (TlsOpts.init_client (tls g) c.world).1 _ _
          (returned (new_contexts-IsValid v (context_written-IsTable xs i _ h (inl refl))) tt)
          (λ t e.
            credentials-Ends i _ xs t g _
              (record {
                contexts_open = v.contexts_open;
                cards_open = v.cards_open;
                contexts_table = v.contexts_table;
                cards_table = v.cards_table;
              })
              h (inr (in_word i pp_context_magic l refl (omega arith))))

    take-Ends :
        (xs : List ClientContext) (g : Tls) (c : Client W)
        → IsValid c
        → IsTable context_id pp_context_magic (some xs)
        → Ends Any (take_context env tls xs g c)
    unfolding take_context
    take-Ends xs g c v h =
        option-Ends Any (free_slot context_id xs) _ _ (returned (new_contexts-IsValid v h) tt)
          (λ i f. fill-Ends i xs g c v h (omega (arith, free_slot-lt context_id xs i f, h.0)))

    with_tlsopts-Ends :
        (xs : List ClientContext) (c : Client W)
        → Choosable env
        → IsValid c
        → IsTable context_id pp_context_magic (some xs)
        → Ends Any (with_tlsopts env tls xs c)
    unfolding with_tlsopts
    with_tlsopts-Ends xs c o v h =
        option-Ends Any c.tlsopts _ _
          (option-Ends Any env.nullenc_env _ _ lost (λ s e.
            option-Ends_both Any (pp_tlsopts_init_any env (wants_nullenc s)) _ _
              (λ n. absurd (o s e n))
              (λ g k.
                take-Ends xs g _
                  (record {
                    contexts_open = v.contexts_open;
                    cards_open = v.cards_open;
                    contexts_table = v.contexts_table;
                    cards_table = v.cards_table;
                  })
                  h)))
          (λ g e. take-Ends xs g c v h)

    pub create_context-Keeps : Choosable env → Keeps Any (pp_create_context env tls)
    unfolding pp_create_context
    create_context-Keeps o = under_context_lock-Keeps env none _ tt (record {
      ends = λ c v.
          option-Ends Any c.contexts _ _
            (if-Ends Any env.malloc_ok _ _
              (with_tlsopts-Ends (replicate pp_max_context free_context) c o v
                (replicate-IsTable context_id pp_context_magic free_context refl))
              (returned v tt))
            (λ xs e. with_tlsopts-Ends xs c o v (contexts-IsTable c xs v e));
    })

module _ {W : Type 0} (net : Network W) (tls : Tls → TlsOpts W) where
  abbrev elsewhere-IsValid : {c : Client W} {w : W} → IsValid c → IsValid (record c { world = w })
  elsewhere-IsValid v = record {
    contexts_open = v.contexts_open;
    cards_open = v.cards_open;
    contexts_table = v.contexts_table;
    cards_table = v.cards_table;
  }

  received-Ends :
      (c : Client W) (w : W) (m : Bytes) (st : RecvStatus)
      → IsValid c
      → Ends {A = Option Bytes} Any (elim st [
        | received n ↦ done (some m) (record c { world = w })
        | disconnected ↦ done (some m) (record c { world = w })
        | failed ↦ done none (record c { world = w })
        | RecvStatus.waiting ↦ hangs
      ])
  received-Ends c w m (received n) v = returned (elsewhere-IsValid v) tt
  received-Ends c w m disconnected v = returned (elsewhere-IsValid v) tt
  received-Ends c w m failed v = returned (elsewhere-IsValid v) tt
  received-Ends c w m RecvStatus.waiting v = waits

  sent-Ends :
      (c : Client W) (w : W) (st : SendStatus) (r : Result (Client W) (Option Bytes))
      → IsValid c
      → Ends Any r
      → Ends {A = Option Bytes} Any (elim st [
        | unsent ↦ done none (record c { world = w })
        | SendStatus.waiting ↦ hangs
        | sent ↦ r
      ])
  sent-Ends c w unsent r v h = returned (elsewhere-IsValid v) tt
  sent-Ends c w SendStatus.waiting r v h = waits
  sent-Ends c w sent r v h = h

  transfer-Keeps : (s : ℕ) (m : Bytes) → Keeps Any (transfer net tls s m)
  unfolding transfer
  transfer-Keeps s m = record {
    ends = λ c v. option-Ends Any c.tlsopts _ _ lost (λ g e.
        let w = TlsOpts.send (tls g) c.world s m in
        let r = TlsOpts.recv (tls g) w.0 s m in
        sent-Ends c w.0 w.1 _ v (received-Ends c r.0 r.1 r.2 v));
  }

  start_session-Keeps :
      (i sock : ℕ) (x : ClientContext)
      → Fits context_id pp_context_magic i x
      → Keeps Any (start_session net tls i x sock)
  unfolding start_session
  start_session-Keeps i sock x f = record {
    ends = λ c v. option-Ends Any c.tlsopts _ _ lost (λ g e.
        option-Ends Any x.tls_context _ _ lost (λ t k.
          option-Ends Any (TlsOpts.init_client_session (tls g) c.world t sock).1 _ _
            (returned (elsewhere-IsValid v) tt)
            (λ n l.
              (Keeps->>= (store_context i (record x { tls_session = some n })) (λ u. pure (some n))
                  (store_context-Keeps i (record x { tls_session = some n }) f)
                  (λ u q. Keeps-pure (some n) tt)).ends
                _ (elsewhere-IsValid v))));
  }

  connected-Ends :
      (i : ℕ) (x : ClientContext) (c : Client W) (r : Result W (Option ℕ))
      → Fits context_id pp_context_magic i x
      → IsValid c
      → Ends {A = Option ℕ} Any (elim r [
        | undefined ↦ undefined
        | hangs ↦ hangs
        | done o w ↦ elim o [
          | none ↦ done none (record c { world = w })
          | some sock ↦ start_session net tls i x sock (record c { world = w })
        ]
      ])
  connected-Ends i x c undefined f v = lost
  connected-Ends i x c hangs f v = waits
  connected-Ends i x c (done none w) f v = returned (elsewhere-IsValid v) tt
  connected-Ends i x c (done (some sock) w) f v =
      (start_session-Keeps i sock x f).ends _ (elsewhere-IsValid v)

  connect_session-Keeps :
      (i : ℕ) (x : ClientContext)
      → Fits context_id pp_context_magic i x
      → Keeps Any (connect_session net tls i x)
  unfolding connect_session
  connect_session-Keeps i x f = record {
    ends = λ c v. connected-Ends i x c (net.connect c.world) f v;
  }

  over_session-Keeps : (m : Bytes) (o : Option ℕ) → Keeps Any (over_session net tls m o)
  unfolding over_session
  over_session-Keeps m none = Keeps-pure none tt
  over_session-Keeps m (some s) = transfer-Keeps s m

  pub exchange_msg-Keeps : (i : ℕ) (m : Bytes) → Keeps Any (pp_exchange_msg net tls i m)
  unfolding pp_exchange_msg
  exchange_msg-Keeps i m =
      Keeps->>= (context_at i) _ (context_at-Keeps i) (λ x f. by_session x f x.tls_session)
    where
      by_session :
          (x : ClientContext)
          → Fits context_id pp_context_magic i x
          → (o : Option ℕ)
          → Keeps Any (elim o as (λ o. M W (Option Bytes)) [
            | some s ↦ over_session net tls m (some s)
            | none ↦
                if m header_type == code Command.establish_context
                then (connect_session net tls i x >>= over_session net tls m)
                else pure none
          ])
      by_session x f none =
          Keeps-if (m header_type == code Command.establish_context)
            (Keeps->>= (connect_session net tls i x) (over_session net tls m)
              (connect_session-Keeps i x f) (λ o q. over_session-Keeps m o))
            (Keeps-pure none tt)
      by_session x f (some s) = over_session-Keeps m (some s)
