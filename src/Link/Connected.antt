-- ===== src/Link/Connected.antt =====
-- The whole of `SCardConnect`: what the application, the client's tables and the library see of it.
use pcsc_proxy_android.Prelude.{
  none, ℕ, ◌+◌, ◌%◌, ◌^◌, ◌<◌, ◌≡◌, refl, ◌∙◌, ap, some, List, arith, length, length-set, set,
  get_elem?, get_elem?-set_self, true, lt→leb,
}
use pcsc_proxy_android.Memory.{Bytes, load32, load_bytes}
use pcsc_proxy_android.Message.Layout.{max_readername}
use pcsc_proxy_android.Message.Fields.{
  connect_reader, connect_card, connect_active_protocol, connect_rv,
}
use pcsc_proxy_android.Message.Command.{Command}
use pcsc_proxy_android.Server.Pcsc.{Pcsc}
use pcsc_proxy_android.Server.Handlers.{pointer, handle_connect}
use pcsc_proxy_android.Server.Dispatch
use pcsc_proxy_android.Server.Loop.{arrived}
use pcsc_proxy_android.Client.State.{
  pp_card_magic, ClientContext, CardContext, Client, Environment, done, bind-done,
}
use pcsc_proxy_android.Client.Slots.{
  slot_number, find_slot, free_slot, free_slot-lt, find_slot-set_self,
}
use pcsc_proxy_android.Client.Tables.{card_id, located, pp_create_card}
use pcsc_proxy_android.Client.Tables.Laws.{
  IsValid, cards_of, cards_of-IsTable, new_card, create_card_eq, find_card_eq,
}
use pcsc_proxy_android.Client.Exchange.{Network, card_at, store_card, context_at, pp_exchange_msg}
use pcsc_proxy_android.Client.Calls.{with_context-done}
use pcsc_proxy_android.Client.Calls.Card.{connect_request, keep_card, connect_reply, scard_connect}
use pcsc_proxy_android.Link.{Service, direct, answer-handle, exchange_direct, fits-accepted}
use pcsc_proxy_android.Link.Connect.{IsConnect, connect_request-IsConnect, arrived-IsConnect}
use pcsc_proxy_android.Link.Release.{OnContext, at_table}
use pcsc_proxy_android.Link.Calls.{word, OnCard, exchanged}
use pcsc_proxy_android.Link.ConnectAnswer.{
  IsConnectAnswer, connect_answer, connect_answer-IsConnectAnswer, arrived-IsConnectAnswer,
  load_bytes-pointer,
}

card_in :
    {W : Type 0} (c : Client W) (ks : List CardContext) (i : ℕ) (k : CardContext)
    → c.cards ≡ some ks
    → get_elem? ks i ≡ some k
    → card_at i c ≡ done k c
unfolding card_at
card_in c ks i k e f = ground arith

module _ {P : Type 0} (lib : Pcsc P) (env : Environment) (ready : env.mutex_rv ≡ 0)
    (net : Network (Service P)) where
  keep_card_eq :
      (c : Client (Service P)) (ys : List CardContext) (j : ℕ) (k : CardContext) (m : Bytes)
      → c.cards ≡ some ys
      → get_elem? ys j ≡ some k
      → load32 m connect_rv ≡ 0
      → connect_reply env net (λ t. direct lib) j m c
        ≡ done
            (load32 m connect_rv, some (k.id, load32 m connect_active_protocol))
            (record c {
              cards = some (set ys j (record k { pcsc_handle = load32 m connect_card }));
            })
  unfolding connect_reply keep_card card_at store_card
  keep_card_eq c ys j k m a b e = ground arith

  -- A successful `SCardConnect`: it returns 0, a handle and the protocol; the library at the other
  -- end has been asked to connect to the reader of that name, in the modes given, under the service's
  -- number of the context; and the handle leads to a card that notes the service's handle, over the
  -- same session, so that the calls on a card find it, and with no answer on its way.
  pub record Connected (id : ℕ) (x : ClientContext) (name : List ℕ) (share preferred : ℕ)
      (c : Client (Service P)) : Type 0 where
    pub asked_name : Bytes
    pub name_given : load_bytes asked_name 0 (length name) ≡ name
    pub name_ended : asked_name (length name) ≡ 0
    pub after : Client (Service P)
    pub handle : ℕ
    pub card : CardContext
    pub run :
        let r =
          lib.connect c.world.library
            (word x.pcsc_context)
            asked_name
            (word share)
            (word preferred) in
        (scard_connect env net (λ t. direct lib) id name share preferred c
          ≡ done (0, some (handle, word r.3)) after)
        × (card.pcsc_handle ≡ word r.2)
        × (after.world.library ≡ r.0)
        × (after.world.reply ≡ none)
    pub on_card : OnCard env handle card after

  handle_connect_eq :
      (p : P) (z : Bytes) (x : ClientContext) (name : List ℕ) (share preferred : ℕ)
      → IsConnect x name share preferred z
      → let r =
          lib.connect p
            (word x.pcsc_context)
            (pointer z connect_reader)
            (word share)
            (word preferred) in
        Dispatch.handle lib Command.connect p z ≡ (r.0, connect_answer z r.1 r.2 r.3)
  unfolding Dispatch.handle handle_connect
  handle_connect_eq p z x name share preferred t = rw (t.context, t.share_mode, t.protocols) refl

  -- With a free slot and memory, on a valid client and a connected context, for a reader's name
  -- of fewer than 128 bytes, where the library at the other end succeeds: `SCardConnect` returns
  -- 0, a handle and the protocol; that library has been asked for the reader of exactly this
  -- name, in the modes given, under the service's number of the context; and the handle leads to
  -- a card that notes the service's handle, over the same session, as the calls on a card need
  -- it.
  pub scard_connect-Connected :
      (id j : ℕ) (x : ClientContext) (name : List ℕ) (share preferred : ℕ) (c : Client (Service P))
      → IsValid c
      → OnContext env id x c
      → env.malloc_ok ≡ true
      → free_slot card_id (cards_of c.cards) ≡ some j
      → length name < 128
      → let z = arrived c.world.stack (connect_request x name share preferred) in
        word
            (lib.connect c.world.library
              (word x.pcsc_context)
              (pointer z connect_reader)
              (word share)
              (word preferred)).1
          ≡ 0
        → Connected id x name share preferred c
  unfolding scard_connect
  scard_connect-Connected id j x name share preferred c v h a f l ok = record {
    asked_name = pointer z connect_reader;
    name_given = load_bytes-pointer z connect_reader (length name) 0 ∙ tz.name_there;
    name_ended = tz.name_ends;
    after = c3;
    handle = (j + pp_card_magic) % 2 ^ 32;
    card = k3;
    run = (
      rw (lt→leb max_readername (length name) l) (
          with_context-done env id h.slot _ _ x c h.found (here c h.contexts)
          ∙ bind-done (pp_create_card env h.slot) _ (some j) c c1
              (create_card_eq env ready h.slot c j a v.cards_open f)
          ∙ bind-done (pp_exchange_msg net (λ t. direct lib) h.slot m) _ (some (arrived m y)) c1
              (exchanged c1 r.0)
              (exchange_direct lib net h.tls c1 h.slot h.session x m y r.0
                (fits-accepted m (omega (arith, tm.size)) (omega (arith, tm.size)))
                (fits-accepted y (omega (arith, ty.size)) (omega (arith, ty.size))) h.chosen
                (here c1 h.contexts) h.connected
                (answer-handle lib Command.connect c.world.library z tz.kind
                  ∙ ap some (handle_connect_eq c.world.library z x name share preferred tz)))
          ∙ keep_card_eq (exchanged c1 r.0) xs1 j k1 (arrived m y) refl
              (get_elem?-set_self xs j k1 below) (ta.result ∙ ok)
          ∙ ap (λ w. done (w, some (k1.id, load32 (arrived m y) connect_active_protocol)) c3)
              (ta.result ∙ ok)
          ∙ ap (λ w. done (0, some (k1.id, w)) c3) ta.protocol),
      ta.card_there,
      refl,
      refl,
    );
    on_card = record {
      slot = j;
      found =
          find_card_eq env ready c3 (set xs1 j k3) ((j + pp_card_magic) % 2 ^ 32) v.cards_open refl
          ∙ ap (λ n. located (find_slot card_id (set xs1 j k3) n) c3)
              (let e : slot_number pp_card_magic ((j + pp_card_magic) % 2 ^ 32) ≡ j =
                  omega (arith, small) in
                e)
          ∙ ap (λ o. located o c3)
              (find_slot-set_self card_id xs1 j k3 (omega (arith, small))
                (omega (arith, below, length-set xs j k1)) (omega (arith, small)));
      card =
          card_in c3 (set xs1 j k3) j k3 refl
            (get_elem?-set_self xs1 j k3 (omega (arith, below, length-set xs j k1)));
      tls = h.tls;
      chosen = h.chosen;
      context = x;
      owner = here c3 h.contexts;
      session = h.session;
      connected = h.connected;
    };
  }
    where
      m : Bytes
      m = connect_request x name share preferred

      z : Bytes
      z = arrived c.world.stack m

      r : P × ℕ × ℕ × ℕ
      r =
          lib.connect c.world.library (word x.pcsc_context) (pointer z connect_reader) (word share)
            (word preferred)

      y : Bytes
      y = connect_answer z r.1 r.2 r.3

      tm : IsConnect x name share preferred m
      tm = connect_request-IsConnect x name share preferred l

      tz : IsConnect x name share preferred z
      tz = arrived-IsConnect c.world.stack m x name share preferred l tm

      ty : IsConnectAnswer r.1 r.2 r.3 y
      ty = connect_answer-IsConnectAnswer z r.1 r.2 r.3 tz.size

      ta : IsConnectAnswer r.1 r.2 r.3 (arrived m y)
      ta = arrived-IsConnectAnswer m y r.1 r.2 r.3 ty

      xs : List CardContext
      xs = cards_of c.cards

      below : j < length xs
      below = free_slot-lt card_id xs j f

      small : j < 64
      small = omega (arith, below, (cards_of-IsTable c.cards v.cards_table).0)

      k1 : CardContext
      k1 = new_card xs j h.slot

      xs1 : List CardContext
      xs1 = set xs j k1

      k3 : CardContext
      k3 = record k1 { pcsc_handle = load32 (arrived m y) connect_card }

      c1 : Client (Service P)
      c1 = record c { cards = some xs1 }

      c3 : Client (Service P)
      c3 = record (exchanged c1 r.0) { cards = some (set xs1 j k3) }

      here : (d : Client (Service P)) → d.contexts ≡ some h.table → context_at h.slot d ≡ done x d
      here d e = at_table d h.table h.slot x e h.at_slot
