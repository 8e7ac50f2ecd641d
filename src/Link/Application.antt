-- ===== src/Link/Application.antt =====
-- An application from its first call on: a context, a card, and a session with the card.
use pcsc_proxy_android.Prelude.{ℕ, ◌+◌, ◌≡◌, none, some, List, []}
use pcsc_proxy_android.Server.Pcsc.{Pcsc, IsBounded}
use pcsc_proxy_android.Client.State.{
  pp_context_magic, ClientContext, Client, Tls, Environment, done, M, pure, ◌>>=◌,
}
use pcsc_proxy_android.Client.Tables.Create.{contexts_of}
use pcsc_proxy_android.Client.Exchange.{Network}
use pcsc_proxy_android.Client.Calls.Context.{scard_establish_context}
use pcsc_proxy_android.Client.Calls.Card.{scard_connect}
use pcsc_proxy_android.Link.{Service, direct}
use pcsc_proxy_android.Link.Calls.{word, exchanged}
use pcsc_proxy_android.Link.Establish.{connected_context, established}
use pcsc_proxy_android.Link.Established.{Reachable}
use pcsc_proxy_android.Link.Connected.{Connected}
use pcsc_proxy_android.Link.Session.{CardDeed, Brought, perform_all, library_all}

module _ {P : Type 0} (lib : Pcsc P) (env : Environment) (net : Network (Service P)) where
  -- The calls of the application; without a context or a card it makes no more.
  unfoldable pub application :
      (scope : ℕ)
      → (name : List ℕ) → (share preferred : ℕ) → List CardDeed
      → M (Service P) (List Brought)
  application scope name share preferred ds =
      scard_establish_context env net (λ k. direct lib) scope >>= λ e. elim e.1 [
        | none ↦ pure []
        | some id ↦ scard_connect env net (λ k. direct lib) id name share preferred >>= λ r.
            elim r.1 [ none ↦ pure [] | some h ↦ perform_all lib env net h.0 ds ]
      ]

module _ {P : Type 0} (lib : Pcsc P) (fits : IsBounded lib) (env : Environment)
    (ready : env.mutex_rv ≡ 0) (net : Network (Service P)) where
  module _ (c : Client (Service P)) (i t sock : ℕ) (g : Tls) (v : Service P) (scope j : ℕ)
      (name : List ℕ) (share preferred : ℕ) (ds : List CardDeed)
      (h : Reachable lib env net c i t sock g v) where
    abbrev r : P × ℕ × ℕ
    r = lib.establish_context v.library (word scope)

    abbrev x : ClientContext
    x = connected_context lib env net (contexts_of c.contexts) i t (word r.2)

    abbrev opened : Client (Service P)
    opened = established lib env net c i t g v r

    -- The run of the application: `link` is the call that connects, and `after` the client behind it.
    pub record Ran : Type 0 where
      pub link : Connected lib env ready net (i + pp_context_magic) x name share preferred opened
      pub run :
          let l = library_all lib env net link.handle link.card ds link.after.world.library in
          application lib env net scope name share preferred ds c
          ≡ done l.1 (exchanged link.after l.0)
