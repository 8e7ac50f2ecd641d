-- ===== src/Link/Others.antt =====
-- `SCardIsValidContext`, `SCardSetTimeout` and `SCardReconnect` from the application to the library and
-- back.
use pcsc_proxy_android.Prelude.{ℕ, ◌+◌, ◌≤◌, ◌≡◌, ◌∙◌, ap, some, arith}
use pcsc_proxy_android.Memory.{Bytes, load32, store32}
use pcsc_proxy_android.Memory.Laws.{load32-store32}
use pcsc_proxy_android.Message.Layout.{header_type}
use pcsc_proxy_android.Message.Fields.{
  isvalid_context, isvalid_rv, settimeout_rv, reconnect_card, reconnect_share_mode,
  reconnect_preferred_protocols, reconnect_initialization, reconnect_active_protocol, reconnect_rv,
}
use pcsc_proxy_android.Message.Command.{Command}
use pcsc_proxy_android.Server.Pcsc.{Pcsc, sign_extend}
use pcsc_proxy_android.Server.Handlers.{handle_is_valid_context, handle_reconnect}
use pcsc_proxy_android.Server.Dispatch.{handle}
use pcsc_proxy_android.Server.Loop.{arrived, msg_len}
use pcsc_proxy_android.Client.State.{
  ClientContext, CardContext, Client, Environment, done, bind-done,
}
use pcsc_proxy_android.Client.Exchange.{Network, context_at, pp_exchange_msg}
use pcsc_proxy_android.Client.Calls.{exchange_rv-done, with_context-done, with_card-done}
use pcsc_proxy_android.Client.Calls.Context.{
  isvalid_request, settimeout_request, scard_is_valid_context, scard_set_timeout,
}
use pcsc_proxy_android.Client.Calls.Card.{reconnect_request, scard_reconnect}
use pcsc_proxy_android.Link.{Service, direct, answer-handle, exchange_direct, fits-accepted}
use pcsc_proxy_android.Link.Words.{
  load32-arrived, arrived_byte, IsRequest, request-IsRequest, store32-IsRequest,
}
use pcsc_proxy_android.Link.Calls.{word, OnCard, exchanged, word_reply}
use pcsc_proxy_android.Link.Transmit.{past, blank}
use pcsc_proxy_android.Link.Release.{OnContext, at_table}
use pcsc_proxy_android.Link.Fixed.{exchange_fixed}

module _ {P : Type 0} (lib : Pcsc P) (env : Environment) (net : Network (Service P)) where
  -- `SCardIsValidContext` brings the library's answer for the context that it knows.
  pub scard_is_valid_context-asked :
      (id : ℕ) (x : ClientContext) (c : Client (Service P))
      → OnContext env id x c
      → let r = lib.is_valid_context c.world.library (word x.pcsc_context) in
        scard_is_valid_context env net (λ k. direct lib) id c ≡ done (word r.1) (exchanged c r.0)
  unfolding scard_is_valid_context handle handle_is_valid_context
  scard_is_valid_context-asked id x c h =
      with_context-done env id h.slot _ _ x c h.found here
      ∙ word_reply lib env net m Command.isvalidcontext 13 isvalid_rv c h.slot h.session x h.tls
          (lib.is_valid_context c.world.library (word x.pcsc_context)) q (omega arith) (omega arith)
          (omega arith) h.chosen here h.connected
          (ap
            (λ w. (
              (lib.is_valid_context c.world.library w).0,
              store32 (arrived c.world.stack m) isvalid_rv
                  (lib.is_valid_context c.world.library w).1,
            ))
            (load32-arrived c.world.stack m isvalid_context (omega (arith, q.size))
              ∙ load32-store32 _ _ _))
    where
      m : Bytes
      m = isvalid_request x

      here : context_at h.slot c ≡ done x c
      here = at_table c h.table h.slot x h.contexts h.at_slot

      q : IsRequest Command.isvalidcontext 13 m
      q =
          store32-IsRequest _ _ _ _ _ (omega arith)
            (request-IsRequest Command.isvalidcontext 13 (omega arith))

  -- `SCardSetTimeout` asks the library nothing, and reports success.
  pub scard_set_timeout-ignored :
      (id timeout : ℕ) (x : ClientContext) (c : Client (Service P))
      → OnContext env id x c
      → scard_set_timeout env net (λ k. direct lib) id timeout c
        ≡ done 0 (exchanged c c.world.library)
  unfolding scard_set_timeout handle
  scard_set_timeout-ignored id timeout x c h =
      with_context-done env id h.slot _ _ x c h.found here
      ∙ exchange_rv-done net (λ k. direct lib) h.slot m (arrived m z) settimeout_rv c
          (exchanged c c.world.library)
          (exchange_direct lib net h.tls c h.slot h.session x m z c.world.library
            (fits-accepted m (omega (arith, q.size)) (omega (arith, q.size)))
            (fits-accepted z (omega (arith, len)) (omega (arith, len))) h.chosen here h.connected
            (answer-handle lib Command.settimeout c.world.library z
              (arrived_byte c.world.stack m header_type (omega (arith, q.size)) ∙ q.kind)))
      ∙ ap (λ v. done v (exchanged c c.world.library)) result
    where
      m : Bytes
      m = settimeout_request x timeout

      z : Bytes
      z = arrived c.world.stack m

      here : context_at h.slot c ≡ done x c
      here = at_table c h.table h.slot x h.contexts h.at_slot

      q : IsRequest Command.settimeout 17 m
      q = store32-IsRequest _ _ _ _ _ (omega arith) (
          store32-IsRequest _ _ _ _ _ (omega arith)
            (request-IsRequest Command.settimeout 17 (omega arith)))

      len : msg_len z ≡ 17
      len = load32-arrived c.world.stack m 1 (omega (arith, q.size)) ∙ q.size

      result : load32 (arrived m z) settimeout_rv ≡ 0
      result =
          load32-arrived m z settimeout_rv (omega (arith, len))
          ∙ load32-arrived c.world.stack m settimeout_rv (omega (arith, q.size))
          ∙ past _ _ _ _ (omega arith)
              (past _ _ _ _ (omega arith) (blank Command.settimeout 17 settimeout_rv (omega arith)))

  -- `SCardReconnect` on a connected card: the library is asked for the handle that the card notes, with
  -- the three words; the application gets its result and the active protocol, whether it succeeds or
  -- not.
  pub scard_reconnect-asked :
      (id share preferred initialization : ℕ) (k : CardContext) (c : Client (Service P))
      → OnCard env id k c
      → let r =
          lib.reconnect c.world.library
            (sign_extend (word k.pcsc_handle))
            (word share)
            (word preferred)
            (word initialization) in
        scard_reconnect env net (λ t. direct lib) id share preferred initialization c
        ≡ done (word r.1, some (word r.2)) (exchanged c r.0)
  unfolding scard_reconnect handle handle_reconnect
  scard_reconnect-asked id share preferred initialization k c h =
      with_card-done env id h.slot _ _ k c h.found h.card
      ∙ bind-done (pp_exchange_msg net (λ t. direct lib) k.client_context m) _ (some (arrived m y))
          c (exchanged c r.0)
          (exchange_fixed lib env net h Command.reconnect 29 m y r.0 q (omega arith) len (
            ap
              (λ (w : ℕ × ℕ × ℕ × ℕ).
                let r = lib.reconnect c.world.library (sign_extend w.0) w.1 w.2 w.3 in
                (r.0, store32 (store32 z reconnect_active_protocol r.2) reconnect_rv r.1))
              (λ i. (card i, shared i, preferred_there i, initialized i))))
      ∙ (λ i. done (result i, some (protocol i)) (exchanged c r.0))
    where
      m : Bytes
      m = reconnect_request k share preferred initialization

      z : Bytes
      z = arrived c.world.stack m

      r : P × ℕ × ℕ
      r =
          lib.reconnect c.world.library (sign_extend (word k.pcsc_handle)) (word share)
            (word preferred) (word initialization)

      y : Bytes
      y = store32 (store32 z reconnect_active_protocol r.2) reconnect_rv r.1

      q : IsRequest Command.reconnect 29 m
      q = store32-IsRequest _ _ _ _ _ (omega arith) (
          store32-IsRequest _ _ _ _ _ (omega arith) (
            store32-IsRequest _ _ _ _ _ (omega arith) (
              store32-IsRequest _ _ _ _ _ (omega arith)
                (request-IsRequest Command.reconnect 29 (omega arith)))))

      at : (o : ℕ) → o + 4 ≤ 29 → load32 z o ≡ load32 m o
      at o a = load32-arrived c.world.stack m o (omega (arith, q.size))

      card : load32 z reconnect_card ≡ word k.pcsc_handle
      card =
          at 5 (omega arith)
          ∙ past _ _ _ _ (omega arith)
              (past _ _ _ _ (omega arith) (past _ _ _ _ (omega arith) (load32-store32 _ _ _)))

      shared : load32 z reconnect_share_mode ≡ word share
      shared =
          at 9 (omega arith)
          ∙ past _ _ _ _ (omega arith) (past _ _ _ _ (omega arith) (load32-store32 _ _ _))

      preferred_there : load32 z reconnect_preferred_protocols ≡ word preferred
      preferred_there = at 13 (omega arith) ∙ past _ _ _ _ (omega arith) (load32-store32 _ _ _)

      initialized : load32 z reconnect_initialization ≡ word initialization
      initialized = at 17 (omega arith) ∙ load32-store32 _ _ _

      len : msg_len y ≡ 29
      len = past _ _ _ 1 (omega arith) (past _ _ _ 1 (omega arith) (at 1 (omega arith) ∙ q.size))

      result : load32 (arrived m y) reconnect_rv ≡ word r.1
      result = load32-arrived m y reconnect_rv (omega (arith, len)) ∙ load32-store32 _ _ _

      protocol : load32 (arrived m y) reconnect_active_protocol ≡ word r.2
      protocol =
          load32-arrived m y reconnect_active_protocol (omega (arith, len))
          ∙ past _ _ _ _ (omega arith) (load32-store32 _ _ _)
