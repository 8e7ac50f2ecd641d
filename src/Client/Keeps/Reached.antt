-- ===== src/Client/Keeps/Reached.antt =====
-- The states that an application brings src/client/client.c to.
use mathlib.Core.Path.{subst}
use pcsc_proxy_android.Prelude.{◌≡◌, refl, none, false}
use pcsc_proxy_android.Client.State.{Tls, TlsOpts, Environment, Client, done, M, pure, ◌>>=◌}
use pcsc_proxy_android.Client.Tables.Laws.{IsValid}
use pcsc_proxy_android.Client.Exchange.{Network}
use pcsc_proxy_android.Client.Api.{
  ApiCall, establish_context, release_context, is_valid_context, set_timeout, connect, reconnect,
  disconnect, end_transaction, begin_transaction, cancel_transaction, cancel, status, control,
  transmit, get_attrib, set_attrib, list_readers, list_reader_groups, get_status_change, run_api,
}
use pcsc_proxy_android.Client.Keeps.{Ends, returned, Keeps, Any, Keeps->>=, Keeps-pure}
use pcsc_proxy_android.Client.Keeps.Exchange.{Choosable}
use pcsc_proxy_android.Client.Keeps.Calls.{
  establish_context-Keeps, release_context_call-Keeps, is_valid_context-Keeps, set_timeout-Keeps,
  list_readers-Keeps, list_reader_groups-Keeps, get_status_change-Keeps,
}
use pcsc_proxy_android.Client.Keeps.CardCalls.{
  connect-Keeps, reconnect-Keeps, disconnect-Keeps, begin_transaction-Keeps, end_transaction-Keeps,
  cancel_transaction-Keeps, cancel-Keeps, status-Keeps, control-Keeps, transmit-Keeps,
  get_attrib-Keeps, set_attrib-Keeps,
}

-- the globals as the library is loaded
abbrev pub loaded : {W : Type 0} → W → Client W
loaded w = record {
  contexts = none;
  cards = none;
  context_locked = false;
  card_locked = false;
  tlsopts = none;
  world = w;
}

module _ {W : Type 0} (env : Environment) (net : Network W) (tls : Tls → TlsOpts W) where
  -- The states after any number of calls that return, one after the other, between which the world
  -- outside may change in any way.
  pub data Reached : Client W → Type 0 where
    start : (w : W) → Reached (loaded w)
    called :
        {c c' : Client W} (a : ApiCall)
        → Reached c
        → run_api env net tls a c ≡ done tt c'
        → Reached c'
    elsewhere : {c : Client W} (w : W) → Reached c → Reached (record c { world = w })

  quiet : {A : Type 0} {m : M W A} → Keeps Any m → Keeps Any (m >>= λ a. pure tt)
  quiet h = Keeps->>= _ _ h (λ a q. Keeps-pure tt tt)

  run_api-Keeps : Choosable env → (a : ApiCall) → Keeps Any (run_api env net tls a)
  unfolding run_api
  run_api-Keeps o (establish_context scope) = quiet (establish_context-Keeps env net tls scope o)
  run_api-Keeps o (release_context id) = quiet (release_context_call-Keeps env net tls id)
  run_api-Keeps o (is_valid_context id) = quiet (is_valid_context-Keeps env net tls id)
  run_api-Keeps o (set_timeout id timeout) = quiet (set_timeout-Keeps env net tls id timeout)
  run_api-Keeps o (connect id reader share preferred) =
      quiet (connect-Keeps env net tls id reader share preferred)
  run_api-Keeps o (reconnect id share preferred initialization) =
      quiet (reconnect-Keeps env net tls id share preferred initialization)
  run_api-Keeps o (disconnect id disposition) = quiet (disconnect-Keeps env net tls id disposition)
  run_api-Keeps o (end_transaction id disposition) =
      quiet (end_transaction-Keeps env net tls id disposition)
  run_api-Keeps o (begin_transaction id) = quiet (begin_transaction-Keeps env net tls id)
  run_api-Keeps o (cancel_transaction id) = quiet (cancel_transaction-Keeps env net tls id)
  run_api-Keeps o (cancel id) = quiet (cancel-Keeps env net tls id)
  run_api-Keeps o (status id reader_len atr_len) =
      quiet (status-Keeps env net tls id reader_len atr_len)
  run_api-Keeps o (control id ccode send send_length recv_length) =
      quiet (control-Keeps env net tls id ccode send send_length recv_length)
  run_api-Keeps o (transmit id pci send send_length recv_pci given room) =
      quiet (transmit-Keeps env net tls id pci send send_length recv_pci given room)
  run_api-Keeps o (get_attrib id attribute given room) =
      quiet (get_attrib-Keeps env net tls id attribute given room)
  run_api-Keeps o (set_attrib id attribute attr n) =
      quiet (set_attrib-Keeps env net tls id attribute attr n)
  run_api-Keeps o (list_readers id given room) =
      quiet (list_readers-Keeps env net tls id given room)
  run_api-Keeps o (list_reader_groups id given room) =
      quiet (list_reader_groups-Keeps env net tls id given room)
  run_api-Keeps o (get_status_change id timeout states) =
      quiet (get_status_change-Keeps env net tls id timeout states)

  done-IsValid : {c : Client W} → Ends Any (done tt c) → IsValid c
  done-IsValid (returned v q) = v

  -- In a build that has the TLS operations that the environment asks for, whatever calls an
  -- application makes, with whatever arguments, and whatever the service, the network and the TLS
  -- library do: between two calls both mutexes are free, and each table is not there yet or has 64
  -- slots, each of which is free or holds the id of its own number.
  pub reached-IsValid : Choosable env → {c : Client W} → Reached c → IsValid c
  reached-IsValid o (start w) = record {
    contexts_open = refl;
    cards_open = refl;
    contexts_table = tt;
    cards_table = tt;
  }
  reached-IsValid o (called {c} a r e) =
      done-IsValid (subst (Ends Any) e ((run_api-Keeps o a).ends c (reached-IsValid o r)))
  reached-IsValid o (elsewhere {c} w r) =
      let v = reached-IsValid o r in
      record {
        contexts_open = v.contexts_open;
        cards_open = v.cards_open;
        contexts_table = v.contexts_table;
        cards_table = v.cards_table;
      }
