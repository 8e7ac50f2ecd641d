-- ===== src/Client/Api.antt =====
-- The calls that src/client/client.c exports to an application, as one type.
use pcsc_proxy_android.Prelude.{ℕ, Bool, Option, List}
use pcsc_proxy_android.Memory.{Bytes}
use pcsc_proxy_android.Server.Pcsc.{IoRequest}
use pcsc_proxy_android.Client.State.{Tls, TlsOpts, Environment, M, pure, ◌>>=◌}
use pcsc_proxy_android.Client.Exchange.{Network}
use pcsc_proxy_android.Client.Calls.Context.{
  scard_establish_context, scard_release_context, scard_is_valid_context, scard_set_timeout,
}
use pcsc_proxy_android.Client.Calls.Card.{
  scard_connect, scard_reconnect, scard_disconnect, scard_begin_transaction, scard_end_transaction,
  scard_cancel_transaction, scard_cancel,
}
use pcsc_proxy_android.Client.Calls.Buffers.{scard_status, scard_control, scard_transmit}
use pcsc_proxy_android.Client.Calls.Lists.{
  scard_get_attrib, scard_set_attrib, scard_list_readers, scard_list_reader_groups,
}
use pcsc_proxy_android.Client.Calls.StatusChange.{State, scard_get_status_change}

pub data ApiCall : Type 0 where
  establish_context : (scope : ℕ) → ApiCall
  release_context is_valid_context : (context : ℕ) → ApiCall
  set_timeout : (context timeout : ℕ) → ApiCall
  connect : (context : ℕ) → (reader : List ℕ) → (share preferred : ℕ) → ApiCall
  reconnect : (card share preferred initialization : ℕ) → ApiCall
  disconnect end_transaction : (card disposition : ℕ) → ApiCall
  begin_transaction cancel_transaction cancel : (card : ℕ) → ApiCall
  status : (card : ℕ) → (reader_len atr_len : Option ℕ) → ApiCall
  control : (card ccode : ℕ) → Option Bytes → (send_length recv_length : ℕ) → ApiCall
  transmit :
      (card : ℕ)
      → IoRequest
      → Bytes
      → (send_length : ℕ) → Option IoRequest
      → (given : Bool) → (room : Option ℕ) → ApiCall
  get_attrib : (card attribute : ℕ) → (given : Bool) → (room : Option ℕ) → ApiCall
  set_attrib : (card attribute : ℕ) → Option Bytes → (n : ℕ) → ApiCall
  list_readers list_reader_groups : (context : ℕ) → (given : Bool) → (room : Option ℕ) → ApiCall
  get_status_change : (context timeout : ℕ) → List State → ApiCall

module _ {W : Type 0} (env : Environment) (net : Network W) (tls : Tls → TlsOpts W) where
  -- only what a call does to the client
  abbrev effect : {A : Type 0} → M W A → M W (Unit {0})
  effect m = m >>= λ a. pure tt

  unfoldable pub run_api : ApiCall → M W (Unit {0})
  run_api (establish_context scope) = effect (scard_establish_context env net tls scope)
  run_api (release_context id) = effect (scard_release_context env net tls id)
  run_api (is_valid_context id) = effect (scard_is_valid_context env net tls id)
  run_api (set_timeout id timeout) = effect (scard_set_timeout env net tls id timeout)
  run_api (connect id reader share preferred) =
      effect (scard_connect env net tls id reader share preferred)
  run_api (reconnect id share preferred initialization) =
      effect (scard_reconnect env net tls id share preferred initialization)
  run_api (disconnect id disposition) = effect (scard_disconnect env net tls id disposition)
  run_api (end_transaction id disposition) =
      effect (scard_end_transaction env net tls id disposition)
  run_api (begin_transaction id) = effect (scard_begin_transaction env net tls id)
  run_api (cancel_transaction id) = effect (scard_cancel_transaction env net tls id)
  run_api (cancel id) = effect (scard_cancel env net tls id)
  run_api (status id reader_len atr_len) = effect (scard_status env net tls id reader_len atr_len)
  run_api (control id ccode send send_length recv_length) =
      effect (scard_control env net tls id ccode send send_length recv_length)
  run_api (transmit id pci send send_length recv_pci given room) =
      effect (scard_transmit env net tls id pci send send_length recv_pci given room)
  run_api (get_attrib id attribute given room) =
      effect (scard_get_attrib env net tls id attribute given room)
  run_api (set_attrib id attribute attr n) =
      effect (scard_set_attrib env net tls id attribute attr n)
  run_api (list_readers id given room) = effect (scard_list_readers env net tls id given room)
  run_api (list_reader_groups id given room) =
      effect (scard_list_reader_groups env net tls id given room)
  run_api (get_status_change id timeout states) =
      effect (scard_get_status_change env net tls id timeout states)
