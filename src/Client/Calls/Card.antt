-- ===== src/Client/Calls/Card.antt =====
-- The calls on a card that carry words only: `SCardConnect` to `SCardCancelTransaction`, and
-- `SCardCancel`, of src/client/client.c.
use pcsc_proxy_android.Prelude.{
  ℕ, ◌+◌, ◌-◌, Option, none, some, List, length, ◌==◌, leb, if◌then◌else◌,
}
use pcsc_proxy_android.Memory.{Bytes, load32, store8, store32, store_bytes}
use pcsc_proxy_android.Message.Layout.{
  max_readername, msg_size, connect, reconnect, disconnect, begin, end, cancel,
}
use pcsc_proxy_android.Message.Command.{Command}
use pcsc_proxy_android.Message.Fields.{
  connect_context, connect_reader, connect_share_mode, connect_preferred_protocols, connect_card,
  connect_active_protocol, connect_rv, reconnect_card, reconnect_share_mode,
  reconnect_preferred_protocols, reconnect_initialization, reconnect_active_protocol, reconnect_rv,
  disconnect_card, disconnect_disposition, disconnect_rv, begin_card, begin_rv, end_card,
  end_disposition, end_rv, cancel_card, cancel_rv,
}
use pcsc_proxy_android.Server.Pcsc.{scard_s_success, scard_f_internal_error, scard_e_invalid_value}
use pcsc_proxy_android.Client.State.{
  ClientContext, CardContext, Tls, TlsOpts, Environment, M, pure, ◌>>=◌, ◌>>◌,
}
use pcsc_proxy_android.Client.Tables.{pp_create_card, pp_release_card}
use pcsc_proxy_android.Client.Exchange.{Network, card_at, store_card, pp_exchange_msg}
use pcsc_proxy_android.Client.Calls.{request, with_context, with_card, exchange_rv}

-- The reader's name is shorter than its field, which is zero behind it.
abbrev pub connect_request : ClientContext → List ℕ → (share preferred : ℕ) → Bytes
connect_request x reader share preferred =
    let m = store32 (request Command.connect (msg_size connect)) connect_context x.pcsc_context in
    let m' = store8 (store_bytes m connect_reader reader) (connect_reader + max_readername - 1) 0 in
    store32 (store32 m' connect_share_mode share) connect_preferred_protocols preferred

abbrev pub reconnect_request : CardContext → (share preferred initialization : ℕ) → Bytes
reconnect_request k share preferred initialization =
    let m = store32 (request Command.reconnect (msg_size reconnect)) reconnect_card k.pcsc_handle in
    store32 (store32 (store32 m reconnect_share_mode share) reconnect_preferred_protocols preferred)
      reconnect_initialization initialization

abbrev pub disconnect_request : CardContext → ℕ → Bytes
disconnect_request k disposition =
    store32
      (store32 (request Command.disconnect (msg_size disconnect)) disconnect_card k.pcsc_handle)
      disconnect_disposition disposition

abbrev pub begin_request : CardContext → Bytes
begin_request k =
    store32 (request Command.begin_transaction (msg_size begin)) begin_card k.pcsc_handle

abbrev pub end_request : CardContext → ℕ → Bytes
end_request k disposition =
    store32 (store32 (request Command.end_transaction (msg_size end)) end_card k.pcsc_handle)
      end_disposition disposition

abbrev pub cancel_request : Command → ℕ → Bytes
cancel_request c handle = store32 (request c (msg_size cancel)) cancel_card handle

module _ {W : Type 0} (env : Environment) (net : Network W) (tls : Tls → TlsOpts W) where
  -- `pp_releaseCard(card->id)` and the result
  unfoldable pub drop_card : {A : Type 0} → ℕ → A → M W A
  drop_card j a = card_at j >>= λ k. pp_release_card env k.id >> pure a

  -- the card notes the service's handle
  unfoldable pub keep_card : ℕ → Bytes → M W (ℕ × Option (ℕ × ℕ))
  keep_card j m = card_at j >>= λ k.
      store_card j (record k { pcsc_handle = load32 m connect_card })
      >> pure (load32 m connect_rv, some (k.id, load32 m connect_active_protocol))

  -- what follows a reply; the handle and the protocol are stored where the result is success
  unfoldable pub connect_reply : ℕ → Bytes → M W (ℕ × Option (ℕ × ℕ))
  unfolding drop_card keep_card
  connect_reply j m =
      if load32 m connect_rv == scard_s_success
      then keep_card j m
      else drop_card j (load32 m connect_rv, none)

  -- `reader` is the text in front of the zero byte.
  unfoldable pub scard_connect :
      (context : ℕ) → List ℕ → (share preferred : ℕ) → M W (ℕ × Option (ℕ × ℕ))
  unfolding connect_reply
  scard_connect id reader share preferred =
      if leb max_readername (length reader)
      then pure (scard_e_invalid_value, none)
      else with_context env id (scard_f_internal_error, none)
          λ i x. pp_create_card env i >>= λ r. elim r [
            | none ↦ pure (scard_f_internal_error, none)
            | some j ↦
                pp_exchange_msg net tls i (connect_request x reader share preferred) >>= λ r'.
                elim r' [
                  | none ↦ drop_card j (scard_f_internal_error, none)
                  | some m ↦ connect_reply j m
                ]
          ]

  -- the second result is `*pdwActiveProtocol`
  unfoldable pub scard_reconnect : (card share preferred initialization : ℕ) → M W (ℕ × Option ℕ)
  scard_reconnect id share preferred initialization =
      with_card env id (scard_e_invalid_value, none)
        λ j k.
          pp_exchange_msg net tls k.client_context
            (reconnect_request k share preferred initialization)
          >>= λ r. elim r [
            | none ↦ pure (scard_f_internal_error, none)
            | some m ↦ pure (load32 m reconnect_rv, some (load32 m reconnect_active_protocol))
          ]

  -- The slot of the card stays in use.
  unfoldable pub scard_disconnect : (card disposition : ℕ) → M W ℕ
  scard_disconnect id disposition =
      with_card env id scard_e_invalid_value
        λ j k. exchange_rv net tls k.client_context (disconnect_request k disposition) disconnect_rv

  unfoldable pub scard_begin_transaction : (card : ℕ) → M W ℕ
  scard_begin_transaction id =
      with_card env id scard_e_invalid_value
        λ j k. exchange_rv net tls k.client_context (begin_request k) begin_rv

  unfoldable pub scard_end_transaction : (card disposition : ℕ) → M W ℕ
  scard_end_transaction id disposition =
      with_card env id scard_e_invalid_value
        λ j k. exchange_rv net tls k.client_context (end_request k disposition) end_rv

  unfoldable pub scard_cancel_transaction : (card : ℕ) → M W ℕ
  scard_cancel_transaction id = with_card env id scard_e_invalid_value λ j k.
      exchange_rv net tls k.client_context (cancel_request Command.cancel_transaction k.pcsc_handle)
        cancel_rv

  -- The handle that the caller gave goes out, not the service's.
  unfoldable pub scard_cancel : (card : ℕ) → M W ℕ
  scard_cancel id =
      with_card env id scard_e_invalid_value
        λ j k. exchange_rv net tls k.client_context (cancel_request Command.cancel id) cancel_rv
