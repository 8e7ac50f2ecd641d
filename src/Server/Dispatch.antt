-- ===== src/Server/Dispatch.antt =====
-- `pp_nextMsg` and `pp_handleConnection` of src/server/server.c, over a session given by its
-- `recv` and `send` (`tlsopts_t` of src/common/tlsopts.h).
use pcsc_proxy_android.Prelude.{ℕ, zero, suc, Option, none, some}
use pcsc_proxy_android.Memory.{Bytes}
use pcsc_proxy_android.Message.Layout.{header_type}
use pcsc_proxy_android.Message.Command.{Command, command_of}
use pcsc_proxy_android.Transport.{
  RecvStatus, received, disconnected, failed, SendStatus, sent, unsent,
}
use pcsc_proxy_android.Server.Pcsc.{Pcsc}
use pcsc_proxy_android.Server.Handlers.{
  handle_establish_context, handle_release_context, handle_is_valid_context, handle_connect,
  handle_reconnect, handle_disconnect, handle_begin_transaction, handle_end_transaction,
  handle_cancel_transaction, handle_cancel,
}
use pcsc_proxy_android.Server.Lengths.{
  handle_status, handle_control, handle_transmit, handle_get_attrib, handle_set_attrib,
  handle_list_readers, handle_list_groups,
}
use pcsc_proxy_android.Server.StatusChange.{handle_get_status_change}

-- A session, with the state `W` of the connection behind it.
pub record Session (W : Type 0) : Type 0 where
  pub recv : W → Bytes → W × Bytes × RecvStatus
  pub send : W → Bytes → W × SendStatus

-- How a call of `pp_nextMsg` ends: it returns 0, 1 or a negative number, leaves the process by
-- `exit(4)`, or waits for the peer for ever.
pub data Next : Type 0 where
  served closed broken aborted stalled : Next

pub record Step (W P : Type 0) : Type 0 where
  pub session : W
  pub library : P
  pub next : Next

module _ {P : Type 0} (lib : Pcsc P) where
  -- the `switch` over the message type
  unfoldable pub handle : Command → P → Bytes → P × Bytes
  handle Command.establish_context = handle_establish_context lib
  handle Command.release_context = handle_release_context lib
  handle Command.isvalidcontext = handle_is_valid_context lib
  handle Command.settimeout = λ p m. (p, m)
  handle Command.connect = handle_connect lib
  handle Command.reconnect = handle_reconnect lib
  handle Command.disconnect = handle_disconnect lib
  handle Command.begin_transaction = handle_begin_transaction lib
  handle Command.end_transaction = handle_end_transaction lib
  handle Command.cancel_transaction = handle_cancel_transaction lib
  handle Command.status = handle_status lib
  handle Command.get_status_change = handle_get_status_change lib
  handle Command.transmit = handle_transmit lib
  handle Command.control = handle_control lib
  handle Command.cancel = handle_cancel lib
  handle Command.get_attrib = handle_get_attrib lib
  handle Command.set_attrib = handle_set_attrib lib
  handle Command.list_readers = handle_list_readers lib
  handle Command.list_groups = handle_list_groups lib

  -- what a known message is turned into; `none` is the `default` label
  unfoldable pub answer : P → Bytes → Option (P × Bytes)
  unfolding handle
  answer p m = elim (command_of (m header_type)) [ none ↦ none | some c ↦ some (handle c p m) ]

  module _ {W : Type 0} (s : Session W) where
    -- the reply is sent back
    unfoldable pub reply : W → P × Bytes → Step W P
    reply w (p, m) =
        let (w', st) = s.send w m in
        record {
          session = w';
          library = p;
          next = elim st [ sent ↦ served | unsent ↦ broken | SendStatus.waiting ↦ stalled ];
        }

    -- what follows a message that has arrived
    unfoldable pub respond : W → P → Bytes → Step W P
    unfolding reply
    respond w p m = elim (answer p m) [
      | none ↦ record { session = w; library = p; next = aborted }
      | some r ↦ reply w r
    ]

    -- `m` is what the stack holds where the message buffer is put.
    unfoldable pub pp_next_msg : W → P → Bytes → Step W P
    unfolding respond
    pp_next_msg w p m =
        let (w', m', st) = s.recv w m in
        elim st [
          | received n ↦ respond w' p m'
          | disconnected ↦ record { session = w'; library = p; next = closed }
          | failed ↦ record { session = w'; library = p; next = broken }
          | RecvStatus.waiting ↦ record { session = w'; library = p; next = stalled }
        ]

    -- `for (;;)`, with a bound on the rounds (`none` where it is used up); the stack holds
    -- `stack n` at the call with `n` rounds to go.
    unfoldable pub pp_handle_connection : ℕ → W → P → (ℕ → Bytes) → Option (Step W P)
    pp_handle_connection zero w p stack = none
    pp_handle_connection (suc n) w p stack =
        let s' = pp_next_msg w p (stack n) in
        elim s'.next [ served ↦ pp_handle_connection n s'.session s'.library stack | _ ↦ some s' ]
