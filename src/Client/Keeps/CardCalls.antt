-- ===== src/Client/Keeps/CardCalls.antt =====
-- The calls on a card of src/client/client.c keep the tables in order.
use pcsc_proxy_android.Prelude.{ℕ, Bool, Option, none, some, List, ◌==◌, leb, ltb, length}
use pcsc_proxy_android.Memory.{Bytes, load32}
use pcsc_proxy_android.Message.Layout.{max_readername, max_buffer_len}
use pcsc_proxy_android.Message.Fields.{connect_rv}
use pcsc_proxy_android.Server.Pcsc.{IoRequest, scard_s_success}
use pcsc_proxy_android.Server.Lengths.{max_data_length}
use pcsc_proxy_android.Client.State.{CardContext, Tls, TlsOpts, Environment, pure, ◌>>=◌}
use pcsc_proxy_android.Client.Tables.{pp_create_card, pp_release_card}
use pcsc_proxy_android.Client.Exchange.{Network, card_at, store_card, pp_exchange_msg}
use pcsc_proxy_android.Client.Calls.{with_card}
use pcsc_proxy_android.Client.Calls.Card.{
  drop_card, keep_card, connect_reply, scard_connect, scard_reconnect, scard_disconnect,
  scard_begin_transaction, scard_end_transaction, scard_cancel_transaction, scard_cancel,
}
use pcsc_proxy_android.Client.Calls.Buffers.{
  scard_autoallocate, scard_status, scard_control, scard_transmit,
}
use pcsc_proxy_android.Client.Calls.Lists.{scard_get_attrib, scard_set_attrib}
use pcsc_proxy_android.Client.Keeps.{
  Keeps, Any, Keeps->>=, Keeps-if, Keeps-pure, card_at-Keeps, store_card-Keeps, release_card-Keeps,
}
use pcsc_proxy_android.Client.Keeps.Exchange.{create_card-Keeps}
use pcsc_proxy_android.Client.Keeps.Calls.{
  Keeps-option, with_context-Keeps, with_card-Keeps, exchanged-Keeps, exchange_rv-Keeps,
}

module _ {W : Type 0} (env : Environment) (net : Network W) (tls : Tls → TlsOpts W) where
  -- a call that is one exchange for a context, or for a card
  card_call-Keeps :
      {A : Type 0} (id : ℕ) (failed n : A) (m : CardContext → Bytes) (f : Bytes → A)
      → Keeps Any (
          with_card env id failed λ j k. pp_exchange_msg net tls k.client_context (m k) >>= λ r.
          elim r [ none ↦ pure n | some y ↦ pure (f y) ])
  card_call-Keeps id failed n m f = with_card-Keeps env id failed _ (λ j k.
      exchanged-Keeps net tls k.client_context (m k) _ _ (Keeps-pure n tt)
        (λ y. Keeps-pure (f y) tt))

  drop_card-Keeps : {A : Type 0} (j : ℕ) (a : A) → Keeps Any (drop_card env net tls j a)
  unfolding drop_card
  drop_card-Keeps j a = Keeps->>= (card_at j) _ (card_at-Keeps j) (λ k f.
      Keeps->>= (pp_release_card env k.id) _ (release_card-Keeps env k.id) (λ u q. Keeps-pure a tt))

  connect_reply-Keeps : (j : ℕ) (m : Bytes) → Keeps Any (connect_reply env net tls j m)
  unfolding connect_reply keep_card
  connect_reply-Keeps j m =
      Keeps-if (load32 m connect_rv == scard_s_success)
        (Keeps->>= (card_at j) _ (card_at-Keeps j)
          (λ k f. Keeps->>= (store_card j _) _ (store_card-Keeps j _ f) (λ u q. Keeps-pure _ tt)))
        (drop_card-Keeps j _)

  pub connect-Keeps :
      (id : ℕ) (reader : List ℕ) (share preferred : ℕ)
      → Keeps Any (scard_connect env net tls id reader share preferred)
  unfolding scard_connect
  connect-Keeps id reader share preferred =
      Keeps-if (leb max_readername (length reader)) (Keeps-pure _ tt) (
        with_context-Keeps env id _ _ (λ i x.
          Keeps->>= (pp_create_card env i) _ (create_card-Keeps env i) (λ r q.
            Keeps-option r (Keeps-pure _ tt) (λ j.
              exchanged-Keeps net tls i _ _ _ (drop_card-Keeps j _) (connect_reply-Keeps j)))))

  pub reconnect-Keeps :
      (id share preferred initialization : ℕ)
      → Keeps Any (scard_reconnect env net tls id share preferred initialization)
  unfolding scard_reconnect
  reconnect-Keeps id share preferred initialization = card_call-Keeps id _ _ _ _

  pub disconnect-Keeps :
      (id disposition : ℕ) → Keeps Any (scard_disconnect env net tls id disposition)
  unfolding scard_disconnect
  disconnect-Keeps id disposition = card_call-Keeps id _ _ _ _

  pub begin_transaction-Keeps : (id : ℕ) → Keeps Any (scard_begin_transaction env net tls id)
  unfolding scard_begin_transaction
  begin_transaction-Keeps id = card_call-Keeps id _ _ _ _

  pub end_transaction-Keeps :
      (id disposition : ℕ) → Keeps Any (scard_end_transaction env net tls id disposition)
  unfolding scard_end_transaction
  end_transaction-Keeps id disposition = card_call-Keeps id _ _ _ _

  pub cancel_transaction-Keeps : (id : ℕ) → Keeps Any (scard_cancel_transaction env net tls id)
  unfolding scard_cancel_transaction
  cancel_transaction-Keeps id = card_call-Keeps id _ _ _ _

  pub cancel-Keeps : (id : ℕ) → Keeps Any (scard_cancel env net tls id)
  unfolding scard_cancel
  cancel-Keeps id = card_call-Keeps id _ _ _ _

  pub status-Keeps :
      (id : ℕ) (reader_len atr_len : Option ℕ)
      → Keeps Any (scard_status env net tls id reader_len atr_len)
  unfolding scard_status
  status-Keeps id reader_len atr_len = with_card-Keeps env id _ _ (λ j k.
      Keeps-option reader_len (Keeps-pure _ tt) (λ n.
        Keeps-if (n == scard_autoallocate) (Keeps-pure _ tt) (
          Keeps-option atr_len (Keeps-pure _ tt) (λ a.
            Keeps-if (a == scard_autoallocate) (Keeps-pure _ tt)
              (exchanged-Keeps net tls _ _ _ _ (Keeps-pure _ tt) (λ m. Keeps-pure _ tt))))))

  pub control-Keeps :
      (id ccode : ℕ) (send : Option Bytes) (send_length recv_length : ℕ)
      → Keeps Any (scard_control env net tls id ccode send send_length recv_length)
  unfolding scard_control
  control-Keeps id ccode send send_length recv_length = with_card-Keeps env id _ _ (λ j k.
      Keeps-if (ltb max_buffer_len send_length) (Keeps-pure _ tt)
        (exchanged-Keeps net tls _ _ _ _ (Keeps-pure _ tt) (λ m. Keeps-pure _ tt)))

  pub transmit-Keeps :
      (id : ℕ) (pci : IoRequest) (send : Bytes) (send_length : ℕ) (recv_pci : Option IoRequest)
      (given : Bool) (room : Option ℕ)
      → Keeps Any (scard_transmit env net tls id pci send send_length recv_pci given room)
  unfolding scard_transmit
  transmit-Keeps id pci send send_length recv_pci given room = with_card-Keeps env id _ _ (λ j k.
      Keeps-if (ltb max_data_length send_length) (Keeps-pure _ tt) (
        Keeps-if (ltb send_length 4) (Keeps-pure _ tt) (
          Keeps-option room (Keeps-pure _ tt)
            (λ n. exchanged-Keeps net tls _ _ _ _ (Keeps-pure _ tt) (λ m. Keeps-pure _ tt)))))

  pub get_attrib-Keeps :
      (id attribute : ℕ) (given : Bool) (room : Option ℕ)
      → Keeps Any (scard_get_attrib env net tls id attribute given room)
  unfolding scard_get_attrib
  get_attrib-Keeps id attribute given room = with_card-Keeps env id _ _ (λ j k.
      Keeps-if _ (Keeps-pure _ tt)
        (exchanged-Keeps net tls _ _ _ _ (Keeps-pure _ tt) (λ m. Keeps-pure _ tt)))

  pub set_attrib-Keeps :
      (id attribute : ℕ) (attr : Option Bytes) (n : ℕ)
      → Keeps Any (scard_set_attrib env net tls id attribute attr n)
  unfolding scard_set_attrib
  set_attrib-Keeps id attribute attr n =
      with_card-Keeps env id _ _
        (λ j k. Keeps-if (ltb max_buffer_len n) (Keeps-pure _ tt) (exchange_rv-Keeps net tls _ _ _))
