-- ===== src/Link/Change/Changed.antt =====
-- The whole of `SCardGetStatusChange`: what the application and the library see of it.
use pcsc_proxy_android.Prelude.{
  ℕ, zero, suc, ◌+◌, ◌*◌, ◌≤◌, ◌≡◌, refl, ◌∙◌, ap, inl, inr, some, List, arith, length,
}
use pcsc_proxy_android.Memory.{Bytes, zeroed, load32, store8, store32}
use pcsc_proxy_android.Memory.Laws.{load32-store32, load32_eq, store32_outside}
use pcsc_proxy_android.Message.Layout.{header_type, header_len}
use pcsc_proxy_android.Message.Fields.{
  getstatuschange_context, getstatuschange_timeout, getstatuschange_rv, getstatuschange_readers,
  getstatuschange_reader_states,
}
use pcsc_proxy_android.Message.Command.{Command, code}
use pcsc_proxy_android.Server.Pcsc.{Pcsc, ReaderState}
use pcsc_proxy_android.Server.StatusChange.{read_states, write_states, handle_get_status_change}
use pcsc_proxy_android.Server.Dispatch.{handle}
use pcsc_proxy_android.Server.Loop.{arrived, msg_len}
use pcsc_proxy_android.Client.State.{ClientContext, Client, Environment, done, bind-done}
use pcsc_proxy_android.Client.Exchange.{Network, context_at, pp_exchange_msg}
use pcsc_proxy_android.Client.Calls.{request, with_context-done}
use pcsc_proxy_android.Client.Calls.StatusChange.{
  State, get_states, status_change_request, scard_get_status_change,
}
use pcsc_proxy_android.Link.{Service, direct, answer-handle, exchange_direct, fits-accepted}
use pcsc_proxy_android.Link.Words.{
  load32-arrived, arrived_byte, IsRequest, request-IsRequest, store32-IsRequest,
}
use pcsc_proxy_android.Link.Calls.{word, exchanged}
use pcsc_proxy_android.Link.Transmit.{past}
use pcsc_proxy_android.Link.Release.{OnContext, at_table}
use pcsc_proxy_android.Link.Change.Put.{
  AllShow, Texts, put_states_outside, put_states_len, put_states-AllShow,
}
use pcsc_proxy_android.Link.Change.Get.{all_updated, write_states_outside, get_states-write_states}

length-read_states : (n : ℕ) (z : Bytes) (o : ℕ) → length (read_states n z o) ≡ n
unfolding read_states
length-read_states zero z o = refl
length-read_states (suc n) z o = ap suc (length-read_states n z (o + 173))

empty_request : (cmd : Command) (n q : ℕ) → 5 ≤ q → request cmd n q ≡ 0
unfolding store8
empty_request cmd n q h =
    store32_outside (store8 zeroed header_type (code cmd)) header_len n q (inr h) ∙ ground arith

module _ (x : ClientContext) (timeout : ℕ) (ss : List State) where
  abbrev base : Bytes
  base =
      store32
        (store32
          (store32 (request Command.get_status_change 21) getstatuschange_context x.pcsc_context)
          getstatuschange_timeout timeout)
        getstatuschange_readers (length ss)

  abbrev message : Bytes
  message = status_change_request x timeout ss

  base-IsRequest : IsRequest Command.get_status_change 21 base
  base-IsRequest = store32-IsRequest _ _ _ _ _ (omega arith) (
      store32-IsRequest _ _ _ _ _ (omega arith) (
        store32-IsRequest _ _ _ _ _ (omega arith)
          (request-IsRequest Command.get_status_change 21 (omega arith))))

  base_empty : (q : ℕ) → 21 ≤ q → base q ≡ 0
  base_empty q h =
      store32_outside _ 17 _ q (omega arith)
      ∙ store32_outside _ 9 _ q (omega arith)
      ∙ store32_outside _ 5 _ q (omega arith)
      ∙ empty_request Command.get_status_change 21 q (omega arith)

  module _ (few : length ss ≤ 384) where
    message-IsRequest : IsRequest Command.get_status_change (21 + 173 * length ss) message
    unfolding status_change_request
    message-IsRequest = record {
      kind =
          put_states_outside ss base 21 0 (omega arith) (omega arith) (omega arith)
          ∙ base-IsRequest.kind;
      size = put_states_len ss base 21 21 (omega arith) base-IsRequest.size (omega arith);
    }

    module _ (stack : Bytes) where
      abbrev z : Bytes
      z = arrived stack message

      came : (o : ℕ) → 5 ≤ o → o + 4 ≤ 21 → load32 z o ≡ load32 base o
      unfolding status_change_request
      came o a b =
          load32-arrived stack message o (omega (arith, message-IsRequest.size))
          ∙ load32_eq message base o (λ q c d.
            put_states_outside ss base 21 q (omega arith) (omega arith) (inr (omega arith)))

      came_readers : load32 z getstatuschange_readers ≡ length ss
      came_readers = came 17 (omega arith) (omega arith) ∙ load32-store32 _ _ _ ∙ omega arith

      came_context : load32 z getstatuschange_context ≡ word x.pcsc_context
      came_context =
          came 5 (omega arith) (omega arith)
          ∙ past _ _ _ _ (omega arith) (past _ _ _ _ (omega arith) (load32-store32 _ _ _))

      came_timeout : load32 z getstatuschange_timeout ≡ word timeout
      came_timeout =
          came 9 (omega arith) (omega arith) ∙ past _ _ _ _ (omega arith) (load32-store32 _ _ _)

      came_states : Texts ss → AllShow ss (read_states (length ss) z 21)
      unfolding status_change_request
      came_states t =
          put_states-AllShow ss base z 21 (omega arith) t base_empty
            (λ q a b. arrived_byte stack message q (omega (arith, message-IsRequest.size)))

      came_size : msg_len z ≡ 21 + 173 * length ss
      came_size =
          load32-arrived stack message 1 (omega (arith, message-IsRequest.size))
          ∙ message-IsRequest.size

module _ {P : Type 0} (lib : Pcsc P) (env : Environment) (net : Network (Service P)) where
  -- A call of `SCardGetStatusChange` with its result: `seen` is what the library sees of the states.
  pub record Changed (id timeout : ℕ) (x : ClientContext) (ss : List State) (c : Client (Service P))
      : Type 0 where
    pub seen : List ReaderState
    pub shown : AllShow ss seen
    pub answered : P × ℕ × List ReaderState
    pub asked :
        lib.get_status_change c.world.library (word x.pcsc_context) (word timeout) seen ≡ answered
    pub run :
        scard_get_status_change env net (λ k. direct lib) id timeout ss c
        ≡ done (word answered.1, all_updated ss answered.2) (exchanged c answered.0)

  handle_change_eq :
      (p : P) (z : Bytes) (n context timeout : ℕ)
      → load32 z getstatuschange_readers ≡ n
      → load32 z getstatuschange_context ≡ context
      → load32 z getstatuschange_timeout ≡ timeout
      → let r = lib.get_status_change p context timeout (read_states n z 21) in
        handle lib Command.get_status_change p z
        ≡ (r.0, store32 (write_states n r.2 z 21) getstatuschange_rv r.1)
  unfolding handle handle_get_status_change
  handle_change_eq p z n context timeout a b d = λ i.
      let r = lib.get_status_change p (b i) (d i) (read_states (a i) z 21) in
      (r.0, store32 (write_states (a i) r.2 z 21) getstatuschange_rv r.1)

  -- `SCardGetStatusChange` on a connected context for at most 384 readers, where a name does not begin
  -- with a zero byte, and against a library that answers with as many states as it is given: the
  -- library at the other end is asked once, in the context that it knows, with the timeout as a 32-bit
  -- word, and sees of every reader, in their order, the first 127 characters of its name with a zero
  -- byte behind them (NULL for a name that is missing or empty), its states and its ATR; the
  -- application gets the library's result and, in every one of its states, the library's words,
  -- in 32 bits, and its ATR, of the length that the low 32 bits of its length give and of 33 bytes at
  -- most, while the names and what stands behind the ATR stay; nothing else of the client changes.
  pub scard_get_status_change-Changed :
      ((p : P) (context t : ℕ) (rs : List ReaderState)
        → length (lib.get_status_change p context t rs).2 ≡ length rs)
      → (id timeout : ℕ) (x : ClientContext) (ss : List State) (c : Client (Service P))
      → OnContext env id x c
      → length ss ≤ 384
      → Texts ss
      → Changed id timeout x ss c
  unfolding scard_get_status_change
  scard_get_status_change-Changed as_many id timeout x ss c h few t = record {
    seen = seen;
    shown = came_states x timeout ss few c.world.stack t;
    answered = r;
    asked = refl;
    run =
        with_context-done env id h.slot _ _ x c h.found here
        ∙ bind-done (pp_exchange_msg net (λ k. direct lib) h.slot m) _ (some (arrived m y)) c
            (exchanged c r.0)
            (exchange_direct lib net h.tls c h.slot h.session x m y r.0
              (fits-accepted m (omega (arith, q.size)) (omega (arith, q.size)))
              (fits-accepted y (omega (arith, len)) (omega (arith, len))) h.chosen here h.connected
              (answer-handle lib Command.get_status_change c.world.library z
                  (arrived_byte c.world.stack m header_type (omega (arith, q.size)) ∙ q.kind)
                ∙ ap some (
                    handle_change_eq c.world.library z (length ss) (word x.pcsc_context)
                      (word timeout) (came_readers x timeout ss few c.world.stack)
                      (came_context x timeout ss few c.world.stack)
                      (came_timeout x timeout ss few c.world.stack))))
        ∙ (λ i. done (result i, states i) (exchanged c r.0));
  }
    where
      m : Bytes
      m = status_change_request x timeout ss

      z : Bytes
      z = arrived c.world.stack m

      seen : List ReaderState
      seen = read_states (length ss) z 21

      r : P × ℕ × List ReaderState
      r = lib.get_status_change c.world.library (word x.pcsc_context) (word timeout) seen

      y : Bytes
      y = store32 (write_states (length ss) r.2 z 21) getstatuschange_rv r.1

      here : context_at h.slot c ≡ done x c
      here = at_table c h.table h.slot x h.contexts h.at_slot

      q : IsRequest Command.get_status_change (21 + 173 * length ss) m
      q = message-IsRequest x timeout ss few

      len : msg_len y ≡ 21 + 173 * length ss
      len = past _ _ _ 1 (omega arith) (
          load32_eq (write_states (length ss) r.2 z 21) z 1
            (λ j a b. write_states_outside (length ss) r.2 z 21 j (inl (omega arith)))
          ∙ came_size x timeout ss few c.world.stack)

      result : load32 (arrived m y) getstatuschange_rv ≡ word r.1
      result = load32-arrived m y getstatuschange_rv (omega (arith, len)) ∙ load32-store32 _ _ _

      states : get_states (arrived m y) getstatuschange_reader_states ss ≡ all_updated ss r.2
      states =
          get_states-write_states ss r.2 z (arrived m y) 21
            (as_many _ _ _ seen ∙ length-read_states (length ss) z 21)
            (λ j a b.
              arrived_byte m y j (omega (arith, len))
              ∙ store32_outside _ getstatuschange_rv _ j (omega arith))
