-- ===== src/Link/Transmitted.antt =====
-- The whole of `SCardTransmit`: what the application and the library see of it.
use pcsc_proxy_android.Prelude.{
  ℕ, ◌≤◌, ◌<◌, ◌≡◌, refl, ◌∙◌, ap, Option, none, some, [], arith, length, Bool, true, false,
  if◌then◌else◌, le→ltb,
}
use pcsc_proxy_android.Memory.{Bytes}
use pcsc_proxy_android.Message.Command.{Command}
use pcsc_proxy_android.Server.Pcsc.{Pcsc, IoRequest, Answer, IsBounded}
use pcsc_proxy_android.Server.Lengths.{max_data_length}
use pcsc_proxy_android.Server.Loop.{arrived}
use native.Mathlib.Nat.{le_trans}
use pcsc_proxy_android.Client.State.{CardContext, Client, Environment, done, bind-done}
use pcsc_proxy_android.Client.Exchange.{Network, pp_exchange_msg}
use pcsc_proxy_android.Client.Calls.{with_card-done}
use pcsc_proxy_android.Client.Calls.Buffers.{
  TransmitOut, transmit_request, transmit_reply, scard_transmit,
}
use pcsc_proxy_android.Link.{Service, direct, answer-handle, exchange_direct, fits-accepted}
use pcsc_proxy_android.Link.Calls.{word, OnCard, exchanged}
use pcsc_proxy_android.Link.Transmit.{IsTransmit, transmit_request-IsTransmit}
use pcsc_proxy_android.Link.Answer.{
  IsAnswer, reply-IsAnswer, arrived-IsAnswer, clamp_room, reply_of, transmission,
  handle_transmit_eq, arrived-IsTransmit,
}

-- What `SCardTransmit` stores for the answer `r` of the library.
abbrev pub transmitted :
    {P : Type 0} → P × ℕ × IoRequest × Answer → Option IoRequest → Bool → TransmitOut
transmitted r recv given = record {
  rv = word r.1;
  pci = elim recv [
    | none ↦ none
    | some q ↦ some (record { protocol = word r.2.protocol; pci_length = word r.2.pci_length })
  ];
  bytes = if given then r.3.bytes else [];
  length = some r.3.size;
}

answer-transmitted :
    {P : Type 0} (r : P × ℕ × IoRequest × Answer) (m : Bytes) (recv : Option IoRequest)
    (given : Bool) (room : ℕ)
    → IsAnswer r.1 r.2 r.3 m
    → r.3.size < 66523
    → r.3.size ≤ room
    → transmit_reply m recv given room ≡ transmitted r recv given
unfolding transmit_reply
answer-transmitted r m none true room t h l =
    rw
      (
        t.count,
        le→ltb max_data_length r.3.size (omega arith),
        le→ltb room r.3.size l,
        t.result,
        t.bytes,
      )
      refl
answer-transmitted r m none false room t h l =
    rw (t.count, le→ltb max_data_length r.3.size (omega arith), le→ltb room r.3.size l, t.result)
      refl
answer-transmitted r m (some q) true room t h l =
    rw
      (
        t.count,
        le→ltb max_data_length r.3.size (omega arith),
        le→ltb room r.3.size l,
        t.protocol,
        t.pci_length,
        t.result,
        t.bytes,
      )
      refl
answer-transmitted r m (some q) false room t h l =
    rw
      (
        t.count,
        le→ltb max_data_length r.3.size (omega arith),
        le→ltb room r.3.size l,
        t.protocol,
        t.pci_length,
        t.result,
      )
      refl

module _ {P : Type 0} (lib : Pcsc P) (fits : IsBounded lib) (env : Environment)
    (net : Network (Service P)) where
  -- `SCardTransmit` on a card whose context is connected to the service: the library at the other
  -- end is asked once to send exactly the bytes given, and the application gets its result and,
  -- where it gives a place for them, exactly the bytes, the length and the protocol header that
  -- it answers with, words in 32 bits; nothing else of the client changes. The bytes given are at
  -- least 4 and fewer than 66523 (the code lets 66523 pass, but that message is refused on the
  -- way), the library writes no more than it is told fits, the length it reports is the number of
  -- the bytes it has written, and these too are fewer than 66523.
  pub scard_transmit-transmitted :
      (id : ℕ) (k : CardContext) (c : Client (Service P)) (pci : IoRequest) (send : Bytes) (n : ℕ)
      (recv : Option IoRequest) (given : Bool) (room : ℕ)
      → OnCard env id k c
      → 4 ≤ n
      → n < 66523
      → let r = transmission lib c.world.library k pci send n recv room in
        r.3.size ≡ length r.3.bytes
        → r.3.size < 66523
        → scard_transmit env net (λ t. direct lib) id pci send n recv given (some room) c
          ≡ done (transmitted r recv given) (exchanged c r.0)
  unfolding scard_transmit
  scard_transmit-transmitted id k c pci send n recv given room h lo hi e u =
      with_card-done env id h.slot _ _ k c h.found h.card
      ∙ rw (le→ltb max_data_length n (omega arith), le→ltb n 4 lo)
          (bind-done (pp_exchange_msg net (λ t. direct lib) k.client_context m) _
              (some (arrived m y)) c (exchanged c r.0)
              (exchange_direct lib net h.tls c k.client_context h.session h.context m y r.0
                (fits-accepted m (omega (arith, q.size)) (omega (arith, q.size)))
                (fits-accepted y (omega (arith, a.size)) (omega (arith, a.size))) h.chosen h.owner
                h.connected
                (answer-handle lib Command.transmit c.world.library x t.kind
                  ∙ ap some (handle_transmit_eq lib c.world.library x k pci send n recv room hi t)))
            ∙ ap (λ o. done o (exchanged c r.0))
                (answer-transmitted r (arrived m y) recv given room
                  (arrived-IsAnswer m y r.1 r.2 r.3 a) u (omega (arith, bound))))
    where
      m : Bytes
      m = transmit_request k pci send n recv room

      x : Bytes
      x = arrived c.world.stack m

      r : P × ℕ × IoRequest × Answer
      r = transmission lib c.world.library k pci send n recv room

      y : Bytes
      y = (reply_of x r).1

      q : IsTransmit k pci send n recv room m
      q = transmit_request-IsTransmit k pci send n recv room hi

      t : IsTransmit k pci send n recv room x
      t = arrived-IsTransmit c.world.stack m k pci send n recv room q

      a : IsAnswer r.1 r.2 r.3 y
      a = reply-IsAnswer x r e u

      bound : length r.3.bytes ≤ room
      bound = le_trans (fits.transmit_fits c.world.library _ _ _ _ _) (clamp_room room)
