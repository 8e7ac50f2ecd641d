-- ===== src/Client/Keeps/Calls.antt =====
-- The calls on a context of src/client/client.c keep the tables in order.
use pcsc_proxy_android.Prelude.{ℕ, Bool, Option, none, some, List, ◌==◌}
use pcsc_proxy_android.Memory.{Bytes, load32}
use pcsc_proxy_android.Message.Fields.{establish_rv}
use pcsc_proxy_android.Server.Pcsc.{scard_s_success}
use pcsc_proxy_android.Client.State.{
  ClientContext, CardContext, Tls, TlsOpts, Environment, M, ◌>>=◌,
}
use pcsc_proxy_android.Client.Tables.{
  pp_find_context, pp_find_card, pp_create_context, pp_release_context,
}
use pcsc_proxy_android.Client.Exchange.{
  Network, context_at, card_at, store_context, pp_exchange_msg,
}
use pcsc_proxy_android.Client.Calls.{with_context, with_card, exchange_rv}
use pcsc_proxy_android.Client.Calls.Context.{
  establish_request, release_request, give_up, keep_context, establish_reply,
  scard_establish_context, close_session, scard_release_context, scard_is_valid_context,
  scard_set_timeout,
}
use pcsc_proxy_android.Client.Calls.Buffers.{scard_autoallocate}
use pcsc_proxy_android.Client.Calls.Lists.{
  ListKind, readers_kind, groups_kind, list_call, scard_list_readers, scard_list_reader_groups,
}
use pcsc_proxy_android.Client.Calls.StatusChange.{State, scard_get_status_change}
use pcsc_proxy_android.Client.Keeps.{
  lost, Keeps, Any, Keeps->>=, Keeps-if, Keeps-pure, option-Ends, context_at-Keeps, card_at-Keeps,
  store_context-Keeps, find_context-Keeps, find_card-Keeps, release_context-Keeps,
}
use pcsc_proxy_android.Client.Keeps.Exchange.{Choosable, create_context-Keeps, exchange_msg-Keeps}

module _ {W A : Type 0} where
  pub Keeps-option :
      {X : Type 0} (o : Option X) {n : M W A} {s : X → M W A}
      → Keeps Any n
      → ((x : X) → Keeps Any (s x))
      → Keeps Any (elim o as (λ o. M W A) [ none ↦ n | some x ↦ s x ])
  Keeps-option none h k = h
  Keeps-option (some x) h k = k x

  pub with_context-Keeps :
      (env : Environment) (id : ℕ) (failed : A) (body : ℕ → ClientContext → M W A)
      → ((i : ℕ) (x : ClientContext) → Keeps Any (body i x))
      → Keeps Any (with_context env id failed body)
  with_context-Keeps env id failed body h =
      Keeps->>= (pp_find_context env id) _ (find_context-Keeps env id) (λ r q.
        Keeps-option r (Keeps-pure failed tt)
          (λ i. Keeps->>= (context_at i) (body i) (context_at-Keeps i) (λ x f. h i x)))

  pub with_card-Keeps :
      (env : Environment) (id : ℕ) (failed : A) (body : ℕ → CardContext → M W A)
      → ((i : ℕ) (k : CardContext) → Keeps Any (body i k))
      → Keeps Any (with_card env id failed body)
  with_card-Keeps env id failed body h =
      Keeps->>= (pp_find_card env id) _ (find_card-Keeps env id) (λ r q.
        Keeps-option r (Keeps-pure failed tt)
          (λ i. Keeps->>= (card_at i) (body i) (card_at-Keeps i) (λ x f. h i x)))

module _ {W : Type 0} (net : Network W) (tls : Tls → TlsOpts W) where
  -- an exchange, and what is done with the reply
  pub exchanged-Keeps :
      {A : Type 0} (i : ℕ) (m : Bytes) (n : M W A) (f : Bytes → M W A)
      → Keeps Any n
      → ((y : Bytes) → Keeps Any (f y))
      → Keeps Any (pp_exchange_msg net tls i m >>= λ r. elim r [ none ↦ n | some y ↦ f y ])
  exchanged-Keeps i m n f h k =
      Keeps->>= (pp_exchange_msg net tls i m) _ (exchange_msg-Keeps net tls i m)
        (λ r q. Keeps-option r h k)

  pub exchange_rv-Keeps : (i : ℕ) (m : Bytes) (rv : ℕ) → Keeps Any (exchange_rv net tls i m rv)
  exchange_rv-Keeps i m rv =
      exchanged-Keeps i m _ _ (Keeps-pure _ tt) (λ y. Keeps-pure (load32 y rv) tt)

module _ {W : Type 0} (env : Environment) (net : Network W) (tls : Tls → TlsOpts W) where
  give_up-Keeps : {A : Type 0} (i : ℕ) (a : A) → Keeps Any (give_up env net tls i a)
  unfolding give_up
  give_up-Keeps i a = Keeps->>= (context_at i) _ (context_at-Keeps i) (λ x f.
      Keeps->>= (pp_release_context env x.id) _ (release_context-Keeps env x.id)
        (λ u q. Keeps-pure a tt))

  establish_reply-Keeps : (i : ℕ) (m : Bytes) → Keeps Any (establish_reply env net tls i m)
  unfolding establish_reply keep_context
  establish_reply-Keeps i m =
      Keeps-if (load32 m establish_rv == scard_s_success)
        (Keeps->>= (context_at i) _ (context_at-Keeps i) (λ x f.
          Keeps->>= (store_context i _) _ (store_context-Keeps i _ f) (λ u q. Keeps-pure _ tt)))
        (give_up-Keeps i (load32 m establish_rv, none))

  pub establish_context-Keeps :
      (scope : ℕ) → Choosable env → Keeps Any (scard_establish_context env net tls scope)
  unfolding scard_establish_context
  establish_context-Keeps scope o =
      Keeps->>= (pp_create_context env tls) _ (create_context-Keeps env tls o) (λ r q.
        Keeps-option r (Keeps-pure _ tt) (λ i.
          exchanged-Keeps net tls i (establish_request scope) _ _ (give_up-Keeps i _)
            (establish_reply-Keeps i)))

  close_session-Keeps : (i : ℕ) → Keeps Any (close_session env net tls i)
  unfolding close_session
  close_session-Keeps i = Keeps->>= (context_at i) _ (context_at-Keeps i) (λ x f. record {
    ends = λ c v. option-Ends Any c.tlsopts _ _ lost (λ g e.
        option-Ends Any x.tls_session _ _ lost (λ s k.
          option-Ends Any x.tls_context _ _ lost (λ t l.
            (store_context-Keeps i (record x { tls_session = none; tls_context = none }) f).ends _
              (record {
                contexts_open = v.contexts_open;
                cards_open = v.cards_open;
                contexts_table = v.contexts_table;
                cards_table = v.cards_table;
              }))));
  })

  pub release_context_call-Keeps : (id : ℕ) → Keeps Any (scard_release_context env net tls id)
  unfolding scard_release_context
  release_context_call-Keeps id = with_context-Keeps env id _ _ (λ i x.
      Keeps->>= (pp_exchange_msg net tls i (release_request x)) _ (exchange_msg-Keeps net tls i _)
        (λ r q.
          Keeps->>= (close_session env net tls i) _ (close_session-Keeps i)
            (λ u q'. give_up-Keeps i _)))

  pub is_valid_context-Keeps : (id : ℕ) → Keeps Any (scard_is_valid_context env net tls id)
  unfolding scard_is_valid_context
  is_valid_context-Keeps id = with_context-Keeps env id _ _ (λ i x. exchange_rv-Keeps net tls i _ _)

  pub set_timeout-Keeps : (id timeout : ℕ) → Keeps Any (scard_set_timeout env net tls id timeout)
  unfolding scard_set_timeout
  set_timeout-Keeps id timeout =
      with_context-Keeps env id _ _ (λ i x. exchange_rv-Keeps net tls i _ _)

  list_call-Keeps :
      (l : ListKind) (id : ℕ) (given : Bool) (room : Option ℕ)
      → Keeps Any (list_call env net tls l id given room)
  unfolding list_call
  list_call-Keeps l id given room = with_context-Keeps env id _ _ (λ i x.
      Keeps-option room (Keeps-pure _ tt) (λ n.
        Keeps-if (n == scard_autoallocate) (Keeps-pure _ tt)
          (exchanged-Keeps net tls i _ _ _ (Keeps-pure _ tt) (λ m. Keeps-pure _ tt))))

  pub list_readers-Keeps :
      (id : ℕ) (given : Bool) (room : Option ℕ)
      → Keeps Any (scard_list_readers env net tls id given room)
  unfolding scard_list_readers
  list_readers-Keeps = list_call-Keeps readers_kind

  pub list_reader_groups-Keeps :
      (id : ℕ) (given : Bool) (room : Option ℕ)
      → Keeps Any (scard_list_reader_groups env net tls id given room)
  unfolding scard_list_reader_groups
  list_reader_groups-Keeps = list_call-Keeps groups_kind

  pub get_status_change-Keeps :
      (id timeout : ℕ) (states : List State)
      → Keeps Any (scard_get_status_change env net tls id timeout states)
  unfolding scard_get_status_change
  get_status_change-Keeps id timeout states =
      with_context-Keeps env id _ _
        (λ i x. exchanged-Keeps net tls i _ _ _ (Keeps-pure _ tt) (λ m. Keeps-pure _ tt))
