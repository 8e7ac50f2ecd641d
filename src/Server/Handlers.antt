-- ===== src/Server/Handlers.antt =====
-- The handlers of src/server/server.c that pass on words only. Each gets the message in `m`, calls
-- the library, and returns the message changed in place.
use pcsc_proxy_android.Prelude.{ℕ, ◌+◌}
use pcsc_proxy_android.Memory.{Bytes, load32, store32}
use pcsc_proxy_android.Message.Fields.{
  establish_scope, establish_context, establish_rv, release_context, isvalid_context, isvalid_rv,
  connect_context, connect_reader, connect_share_mode, connect_preferred_protocols, connect_card,
  connect_active_protocol, connect_rv, reconnect_card, reconnect_share_mode,
  reconnect_preferred_protocols, reconnect_initialization, reconnect_active_protocol, reconnect_rv,
  disconnect_card, disconnect_disposition, disconnect_rv, begin_card, begin_rv, end_card,
  end_disposition, end_rv, cancel_card, cancel_rv,
}
use pcsc_proxy_android.Server.Pcsc.{Pcsc, sign_extend}

-- the memory from `o` on, as a pointer into the message shows it
abbrev pub pointer : Bytes → ℕ → Bytes
pointer m o i = m (o + i)

module _ {P : Type 0} (lib : Pcsc P) where
  unfoldable pub handle_establish_context : P → Bytes → P × Bytes
  handle_establish_context p m =
      let (p', res, context) = lib.establish_context p (load32 m establish_scope) in
      (p', store32 (store32 m establish_context context) establish_rv res)

  -- The result goes through `establishStruct`, not `releaseStruct`.
  unfoldable pub handle_release_context : P → Bytes → P × Bytes
  handle_release_context p m =
      let (p', res) = lib.release_context p (load32 m release_context) in
      (p', store32 m establish_rv res)

  unfoldable pub handle_is_valid_context : P → Bytes → P × Bytes
  handle_is_valid_context p m =
      let (p', res) = lib.is_valid_context p (load32 m isvalid_context) in
      (p', store32 m isvalid_rv res)

  unfoldable pub handle_connect : P → Bytes → P × Bytes
  handle_connect p m =
      let (p', res, card, active) =
        lib.connect p (load32 m connect_context) (pointer m connect_reader)
          (load32 m connect_share_mode) (load32 m connect_preferred_protocols) in
      (
        p',
        store32 (store32 (store32 m connect_card card) connect_active_protocol active) connect_rv
            res,
      )

  unfoldable pub handle_reconnect : P → Bytes → P × Bytes
  handle_reconnect p m =
      let (p', res, active) =
        lib.reconnect p (sign_extend (load32 m reconnect_card)) (load32 m reconnect_share_mode)
          (load32 m reconnect_preferred_protocols) (load32 m reconnect_initialization) in
      (p', store32 (store32 m reconnect_active_protocol active) reconnect_rv res)

  unfoldable pub handle_disconnect : P → Bytes → P × Bytes
  handle_disconnect p m =
      let (p', res) =
        lib.disconnect p (sign_extend (load32 m disconnect_card))
          (load32 m disconnect_disposition) in
      (p', store32 m disconnect_rv res)

  unfoldable pub handle_begin_transaction : P → Bytes → P × Bytes
  handle_begin_transaction p m =
      let (p', res) = lib.begin_transaction p (sign_extend (load32 m begin_card)) in
      (p', store32 m begin_rv res)

  unfoldable pub handle_end_transaction : P → Bytes → P × Bytes
  handle_end_transaction p m =
      let (p', res) =
        lib.end_transaction p (sign_extend (load32 m end_card)) (load32 m end_disposition) in
      (p', store32 m end_rv res)

  unfoldable pub handle_cancel_transaction : P → Bytes → P × Bytes
  handle_cancel_transaction p m =
      let (p', res) = lib.cancel p (sign_extend (load32 m cancel_card)) in
      (p', store32 m cancel_rv res)

  unfoldable pub handle_cancel : P → Bytes → P × Bytes
  handle_cancel p m =
      let (p', res) = lib.cancel p (sign_extend (load32 m cancel_card)) in
      (p', store32 m cancel_rv res)
