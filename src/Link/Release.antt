-- ===== src/Link/Release.antt =====
-- `SCardReleaseContext` and `SCardIsValidContext` over a session to the service.
use pcsc_proxy_android.Prelude.{
  ℕ, ◌<◌, ◌≡◌, refl, ◌∙◌, ap, inl, inr, none, some, List, arith, set, get_elem?, get_elem?-set_self,
  get_elem?-some, false,
}
use pcsc_proxy_android.Memory.{Bytes, load32, store32}
use pcsc_proxy_android.Memory.Laws.{load32-store32, load32-store32_apart}
use pcsc_proxy_android.Message.Layout.{header_type}
use pcsc_proxy_android.Message.Fields.{release_context, release_rv, establish_rv}
use pcsc_proxy_android.Message.Command.{Command}
use pcsc_proxy_android.Server.Pcsc.{Pcsc}
use pcsc_proxy_android.Server.Handlers.{handle_release_context}
use pcsc_proxy_android.Server.Dispatch.{handle}
use pcsc_proxy_android.Server.Loop.{arrived, msg_len}
use pcsc_proxy_android.Client.State.{
  pp_context_magic, ClientContext, Client, Tls, Environment, done, bind-done,
}
use pcsc_proxy_android.Client.Slots.{slot_number}
use pcsc_proxy_android.Client.Tables.{pp_find_context, pp_release_context}
use pcsc_proxy_android.Client.Tables.Release.{without_context, release_context_eq}
use pcsc_proxy_android.Client.Exchange.{Network, context_at, store_context, pp_exchange_msg}
use pcsc_proxy_android.Client.Calls.{request, with_context-done}
use pcsc_proxy_android.Client.Calls.Context.{
  release_request, close_session, give_up, scard_release_context,
}
use pcsc_proxy_android.Link.{Service, direct, answer-handle, exchange_direct, fits-accepted}
use pcsc_proxy_android.Link.Words.{
  IsRequest, request-IsRequest, store32-IsRequest, load32-arrived, arrived_byte, answered_len,
}
use pcsc_proxy_android.Link.Transmit.{blank}
use pcsc_proxy_android.Link.Calls.{word, exchanged}

-- The id leads to slot `slot` of the table `table`, whose context has a session.
pub record OnContext {P : Type 0} (env : Environment) (id : ℕ) (x : ClientContext)
    (c : Client (Service P)) : Type 0 where
  pub slot : ℕ
  pub below : slot < 64
  pub table : List ClientContext
  pub contexts : c.contexts ≡ some table
  pub unlocked : c.context_locked ≡ false
  pub found : pp_find_context env id c ≡ done (some slot) c
  pub at_slot : get_elem? table slot ≡ some x
  pub number : slot_number pp_context_magic x.id ≡ slot
  pub tls : Tls
  pub chosen : c.tlsopts ≡ some tls
  pub session : ℕ
  pub connected : x.tls_session ≡ some session
  pub secured : ℕ
  pub tls_there : x.tls_context ≡ some secured

pub at_table :
    {W : Type 0} (c : Client W) (xs : List ClientContext) (i : ℕ) (x : ClientContext)
    → c.contexts ≡ some xs
    → get_elem? xs i ≡ some x
    → context_at i c ≡ done x c
unfolding context_at
at_table c xs i x e f = ground arith

module _ {P : Type 0} (lib : Pcsc P) (env : Environment) (ready : env.mutex_rv ≡ 0)
    (net : Network (Service P)) where
  -- the context's slot after the session has been closed
  abbrev closed_context : ClientContext → ClientContext
  closed_context x = record x { tls_session = none; tls_context = none }

  close_eq :
      (c : Client (Service P)) (xs : List ClientContext) (i : ℕ) (x : ClientContext) (g : Tls)
      (s t : ℕ)
      → c.contexts ≡ some xs
      → get_elem? xs i ≡ some x
      → c.tlsopts ≡ some g
      → x.tls_session ≡ some s
      → x.tls_context ≡ some t
      → close_session env net (λ k. direct lib) i c
        ≡ done tt (record c {
          contexts = some (set xs i (closed_context x));
          world = net.close c.world 0;
        })
  unfolding close_session context_at store_context direct
  close_eq c xs i x g s t a b d e f = ground arith

  give_up-done :
      {A : Type 0} (i : ℕ) (a : A) (x : ClientContext) (c c' : Client (Service P))
      → context_at i c ≡ done x c
      → pp_release_context env x.id c ≡ done tt c'
      → give_up env net (λ k. direct lib) i a c ≡ done a c'
  unfolding give_up
  give_up-done i a x c c' e f =
      bind-done (context_at i) _ x c c e ∙ bind-done (pp_release_context env x.id) _ tt c c' f

  -- The client after a release: the service's side has moved on, the socket is closed, and the slot
  -- is free.
  abbrev pub released :
      Client (Service P) → List ClientContext → ℕ → ClientContext → P → Client (Service P)
  released c xs i x p =
      without_context
        (record (exchanged c p) {
          contexts = some (set xs i (closed_context x));
          world = net.close (exchanged c p).world 0;
        })
        (set xs i (closed_context x)) i

  -- `SCardReleaseContext` of a connected context calls the library at the other end, closes the
  -- session and frees the slot, but returns 0 whatever that library returns: `handleReleaseContext`
  -- stores the result behind the message.
  pub scard_release_context-released :
      (id : ℕ) (x : ClientContext) (c : Client (Service P)) (h : OnContext env id x c)
      → let r = lib.release_context c.world.library (word x.pcsc_context) in
        scard_release_context env net (λ k. direct lib) id c
        ≡ done 0 (released c h.table h.slot x r.0)
  unfolding scard_release_context handle handle_release_context
  scard_release_context-released id x c h =
      with_context-done env id h.slot _ _ x c h.found here
      ∙ bind-done (pp_exchange_msg net (λ k. direct lib) h.slot m) _ (some (arrived m y)) c
          (exchanged c r.0)
          (exchange_direct lib net h.tls c h.slot h.session x m y r.0
            (fits-accepted m (omega (arith, q.size)) (omega (arith, q.size)))
            (fits-accepted y (omega (arith, len)) (omega (arith, len))) h.chosen here h.connected
            (answer-handle lib Command.release_context c.world.library z
                (arrived_byte c.world.stack m header_type (omega (arith, q.size)) ∙ q.kind)
              ∙ ap
                  (λ w. some (
                    (lib.release_context c.world.library w).0,
                    store32 z establish_rv (lib.release_context c.world.library w).1,
                  ))
                  asked))
      ∙ bind-done (close_session env net (λ k. direct lib) h.slot) _ tt (exchanged c r.0) _ (
          close_eq (exchanged c r.0) h.table h.slot x h.tls h.session h.secured h.contexts h.at_slot
            h.chosen h.connected h.tls_there)
      ∙ give_up-done h.slot (load32 (arrived m y) release_rv) (closed_context x) _
          (released c h.table h.slot x r.0)
          (at_table _ (set h.table h.slot (closed_context x)) h.slot (closed_context x) refl (
            get_elem?-set_self h.table h.slot (closed_context x)
              (get_elem?-some h.table h.slot x h.at_slot)))
          (release_context_eq env ready _ (set h.table h.slot (closed_context x)) x.id h.slot
            h.unlocked refl h.number h.below)
      ∙ ap (λ v. done v (released c h.table h.slot x r.0)) lost
    where
      m : Bytes
      m = release_request x

      z : Bytes
      z = arrived c.world.stack m

      r : P × ℕ
      r = lib.release_context c.world.library (word x.pcsc_context)

      y : Bytes
      y = store32 z establish_rv r.1

      here : context_at h.slot c ≡ done x c
      here = at_table c h.table h.slot x h.contexts h.at_slot

      q : IsRequest Command.release_context 13 m
      q =
          store32-IsRequest _ _ _ _ _ (omega arith)
            (request-IsRequest Command.release_context 13 (omega arith))

      len : msg_len y ≡ 13
      len =
          answered_len c.world.stack m establish_rv r.1 (omega arith) (omega (arith, q.size))
          ∙ q.size

      asked : load32 z release_context ≡ word x.pcsc_context
      asked =
          load32-arrived c.world.stack m release_context (omega (arith, q.size))
          ∙ load32-store32 _ _ _

      lost : load32 (arrived m y) release_rv ≡ 0
      lost =
          load32-arrived m y release_rv (omega (arith, len))
          ∙ load32-store32_apart z establish_rv release_rv r.1 (inr (omega arith))
          ∙ load32-arrived c.world.stack m release_rv (omega (arith, q.size))
          ∙ load32-store32_apart (request Command.release_context 13) release_context release_rv
              x.pcsc_context (inl (omega arith))
          ∙ blank Command.release_context 13 release_rv (omega arith)
