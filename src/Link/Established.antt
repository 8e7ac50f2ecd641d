-- ===== src/Link/Established.antt =====
-- The whole of `SCardEstablishContext` over a new connection to the service.
use pcsc_proxy_android.Prelude.{
  ℕ, true, ◌+◌, ◌%◌, ◌^◌, ◌<◌, ◌≡◌, refl, ◌∙◌, ap, none, some, List, arith, length, set, get_elem?,
  get_elem?-set_self, set-set,
}
use pcsc_proxy_android.Memory.{Bytes, load32}
use pcsc_proxy_android.Message.Layout.{header_type}
use pcsc_proxy_android.Message.Fields.{establish_context, establish_rv}
use pcsc_proxy_android.Message.Command.{Command}
use pcsc_proxy_android.Server.Pcsc.{Pcsc}
use pcsc_proxy_android.Server.Loop.{arrived, msg_len}
use pcsc_proxy_android.Client.State.{
  pp_context_magic, ClientContext, Client, Tls, Environment, done, bind-done,
}
use pcsc_proxy_android.Client.Slots.{
  IsTable, Takes, set-Takes, find_slot, free_slot, free_slot-lt, slot_number,
}
use pcsc_proxy_android.Client.Tables.{context_id, located, pp_create_context}
use pcsc_proxy_android.Client.Tables.Laws.{find_context_eq, slot_number_context}
use pcsc_proxy_android.Client.Tables.Create.{contexts_of, new_context, Provided, create_context_eq}
use pcsc_proxy_android.Client.Exchange.{
  Network, context_at, store_context, pp_exchange_msg, connect_session_eq, exchange_connect,
}
use pcsc_proxy_android.Client.Calls.Context.{
  establish_request, keep_context, establish_reply, scard_establish_context,
}
use pcsc_proxy_android.Link.{Service, direct, answer-handle, transfer-direct, fits, fits-accepted}
use pcsc_proxy_android.Link.Words.{arrived_byte}
use pcsc_proxy_android.Link.Calls.{word}
use pcsc_proxy_android.Link.Release.{OnContext, at_table}
use pcsc_proxy_android.Link.Establish.{
  establish_answer, answer_len, answer_rv, answer_context, connected_context, established,
  establish_request-IsRequest, asked,
}

module _ {P : Type 0} (lib : Pcsc P) (env : Environment) (net : Network (Service P)) where
  keep_context_eq :
      (c : Client (Service P)) (xs : List ClientContext) (i : ℕ) (x : ClientContext) (m : Bytes)
      → c.contexts ≡ some xs
      → get_elem? xs i ≡ some x
      → load32 m establish_rv ≡ 0
      → establish_reply env net (λ t. direct lib) i m c
        ≡ done
            (load32 m establish_rv, some x.id)
            (record c {
              contexts = some (set xs i (record x { pcsc_context = load32 m establish_context }));
            })
  unfolding establish_reply keep_context context_at store_context
  keep_context_eq c xs i x m a b e = ground arith

  -- What has to hold for a call to go through: the TLS library and the environment give what is
  -- needed, slot `i` is the first that is free and holds no old session, and the connection succeeds
  -- and leads to the service `v`.
  pub record Reachable (c : Client (Service P)) (i t sock : ℕ) (g : Tls) (v : Service P)
      : Type 0 where
    pub world : Service P
    pub provided : Provided env (λ k. direct lib) c g t world
    pub free : free_slot context_id (contexts_of c.contexts) ≡ some i
    pub table : IsTable context_id pp_context_magic (some (contexts_of c.contexts))
    pub no_session : (new_context (contexts_of c.contexts) i t).tls_session ≡ none
    pub connects : net.connect world ≡ done (some sock) v

  module _ (c : Client (Service P)) (i t sock : ℕ) (g : Tls) (v : Service P) (scope : ℕ)
      (h : Reachable c i t sock g v) where
    abbrev pub xs : List ClientContext
    xs = contexts_of c.contexts

    abbrev pub r : P × ℕ × ℕ
    r = lib.establish_context v.library (word scope)

    abbrev m : Bytes
    m = establish_request scope

    abbrev y : Bytes
    y = establish_answer (arrived v.stack m) r.1 r.2

    abbrev p0 : ClientContext
    p0 = new_context xs i t

    abbrev p1 : ClientContext
    p1 = record p0 { tls_session = some 0 }

    abbrev created : Client (Service P)
    created = record c { contexts = some (set xs i p0); tlsopts = some g; world = h.world }

    abbrev exchanged_at : Client (Service P)
    exchanged_at = record c {
      contexts = some (set (set xs i p0) i p1);
      tlsopts = some g;
      world = record { library = r.0; stack = v.stack; reply = none };
    }

    pub in_table : i < length xs
    in_table = free_slot-lt context_id xs i h.free

    fits_len : (z : Bytes) → msg_len z ≡ 17 → fits z ≡ true
    fits_len z e = fits-accepted z (omega (arith, e)) (omega (arith, e))

    exchange_eq :
        pp_exchange_msg net (λ k. direct lib) i m created ≡ done (some (arrived m y)) exchanged_at
    unfolding direct
    exchange_eq =
        let con = record created { contexts = some (set (set xs i p0) i p1); world = v } in
        exchange_connect net (λ k. direct lib) created con i 0 p0 m
          (at_table created (set xs i p0) i p0 refl (get_elem?-set_self xs i p0 in_table))
          h.no_session (establish_request-IsRequest scope).kind
          (connect_session_eq net (λ k. direct lib) created i t sock 0 p0 (set xs i p0) g v v refl
            refl refl h.connects refl)
        ∙ transfer-direct lib net g con 0 m y r.0
            (fits_len m (establish_request-IsRequest scope).size)
            (fits_len y (answer_len v.stack m r.1 r.2 (establish_request-IsRequest scope).size))
            refl
            (answer-handle lib Command.establish_context v.library (arrived v.stack m) (
                arrived_byte v.stack m header_type
                  (omega (arith, (establish_request-IsRequest scope).size))
                ∙ (establish_request-IsRequest scope).kind)
              ∙ ap some (asked lib env net v scope))

    abbrev pub p2 : ClientContext
    p2 = connected_context lib env net xs i t (word r.2)

    abbrev pub final : Client (Service P)
    final = established lib env net c i t g v r

    pub id_eq : (i + pp_context_magic) % 2 ^ 32 ≡ i + pp_context_magic
    id_eq = omega (arith, in_table, h.table.0)

    rv_eq : load32 (arrived m y) establish_rv ≡ word r.1
    rv_eq = answer_rv v.stack m r.1 r.2 (establish_request-IsRequest scope).size

    kept :
        word r.1 ≡ 0
        → establish_reply env net (λ k. direct lib) i (arrived m y) exchanged_at
          ≡ done (0, some (i + pp_context_magic)) final
    kept ok =
        keep_context_eq exchanged_at (set (set xs i p0) i p1) i p1 (arrived m y) refl
          (ap (λ l. get_elem? l i) (set-set xs i p0 p1) ∙ get_elem?-set_self xs i p1 in_table)
          (rv_eq ∙ ok)
        ∙ ap
            (λ (q : ℕ × ℕ × ℕ × List ClientContext).
              done (q.0, some q.1)
                (record exchanged_at {
                  contexts = some (set q.3 i (record p1 { pcsc_context = q.2 }));
                }))
            (λ j. (
              (rv_eq ∙ ok) j,
              id_eq j,
              answer_context v.stack m r.1 r.2 (establish_request-IsRequest scope).size j,
              set-set xs i p0 p1 j,
            ))
        ∙ ap (λ l. done (0, some (i + pp_context_magic)) (record final { contexts = some l }))
            (set-set xs i p1 p2)

    pub taken : Takes context_id pp_context_magic xs i p2
    taken = set-Takes context_id pp_context_magic xs i p2 (omega arith) h.table h.free id_eq

    unfoldable pub established_context : OnContext env (i + pp_context_magic) p2 final
    established_context = record {
      slot = i;
      below = taken.in_table;
      table = set xs i p2;
      contexts = refl;
      unlocked = h.provided.unlocked;
      found =
          find_context_eq env h.provided.ready final (set xs i p2) (i + pp_context_magic)
            h.provided.unlocked refl
          ∙ ap (λ n. located (find_slot context_id (set xs i p2) n) final)
              (slot_number_context i taken.in_table)
          ∙ ap (λ f. located f final) taken.found;
      at_slot = taken.stored;
      number = ap (slot_number pp_context_magic) id_eq ∙ slot_number_context i taken.in_table;
      tls = g;
      chosen = refl;
      session = 0;
      connected = refl;
      secured = t;
      tls_there = refl;
    }

    -- `SCardEstablishContext` on a client with a free slot, the first of which holds no old
    -- session, where the TLS library, the credentials and the connection give what is needed:
    -- it calls the library at the other end once, with the scope; if that succeeds it returns
    -- 0 and the number of the slot it has taken, and the number leads to a connected context
    -- that notes what the library gave.
    pub establish-OnContext :
        word r.1 ≡ 0
        → (scard_establish_context env net (λ k. direct lib) scope c
            ≡ done (0, some (i + pp_context_magic)) (established lib env net c i t g v r))
          × OnContext env
              (i + pp_context_magic)
              (connected_context lib env net xs i t (word r.2))
              (established lib env net c i t g v r)
    unfolding scard_establish_context
    establish-OnContext ok = (
      bind-done (pp_create_context env (λ k. direct lib)) _ (some i) c created
            (create_context_eq env (λ k. direct lib) c i g t h.world h.provided h.free)
          ∙ bind-done (pp_exchange_msg net (λ k. direct lib) i m) _ (some (arrived m y)) created
              exchanged_at exchange_eq
          ∙ kept ok,
      established_context,
    )
