-- ===== src/Link/Establish.antt =====
-- `SCardEstablishContext`: the context, its session, and the number that the library gives.
use pcsc_proxy_android.Prelude.{ℕ, ◌≡◌, ◌∙◌, ap, inr, none, some, List, arith, set}
use pcsc_proxy_android.Memory.{Bytes, load32, store32}
use pcsc_proxy_android.Memory.Laws.{load32-store32, load32-store32_apart}
use pcsc_proxy_android.Message.Layout.{header_len}
use pcsc_proxy_android.Message.Fields.{establish_scope, establish_context, establish_rv}
use pcsc_proxy_android.Message.Command.{Command}
use pcsc_proxy_android.Server.Pcsc.{Pcsc}
use pcsc_proxy_android.Server.Handlers.{handle_establish_context}
use pcsc_proxy_android.Server.Dispatch.{handle}
use pcsc_proxy_android.Server.Loop.{arrived, msg_len}
use pcsc_proxy_android.Client.State.{ClientContext, Client, Tls, Environment}
use pcsc_proxy_android.Client.Tables.Create.{contexts_of, new_context}
use pcsc_proxy_android.Client.Exchange.{Network}
use pcsc_proxy_android.Client.Calls.{request}
use pcsc_proxy_android.Client.Calls.Context.{establish_request}
use pcsc_proxy_android.Link.{Service}
use pcsc_proxy_android.Link.Words.{load32-arrived, IsRequest, request-IsRequest, store32-IsRequest}
use pcsc_proxy_android.Link.Calls.{word}

-- The handler's answer to a request for a context: the two words that it stores.
abbrev pub establish_answer : Bytes → ℕ → ℕ → Bytes
establish_answer z res context = store32 (store32 z establish_context context) establish_rv res

pub answer_len :
    (stack m : Bytes) (res context : ℕ)
    → msg_len m ≡ 17
    → msg_len (establish_answer (arrived stack m) res context) ≡ 17
answer_len stack m res context h =
    load32-store32_apart (store32 (arrived stack m) establish_context context) establish_rv
      header_len res (inr (omega arith))
    ∙ load32-store32_apart (arrived stack m) establish_context header_len context
        (inr (omega arith))
    ∙ load32-arrived stack m header_len (omega (arith, h))
    ∙ h

pub answer_rv :
    (stack m : Bytes) (res context : ℕ)
    → msg_len m ≡ 17
    → load32 (arrived m (establish_answer (arrived stack m) res context)) establish_rv ≡ word res
answer_rv stack m res context h =
    load32-arrived m (establish_answer (arrived stack m) res context) establish_rv
      (omega (arith, answer_len stack m res context h))
    ∙ load32-store32 (store32 (arrived stack m) establish_context context) establish_rv res

pub answer_context :
    (stack m : Bytes) (res context : ℕ)
    → msg_len m ≡ 17
    → load32 (arrived m (establish_answer (arrived stack m) res context)) establish_context
      ≡ word context
answer_context stack m res context h =
    load32-arrived m (establish_answer (arrived stack m) res context) establish_context
      (omega (arith, answer_len stack m res context h))
    ∙ load32-store32_apart (store32 (arrived stack m) establish_context context) establish_rv
        establish_context res (inr (omega arith))
    ∙ load32-store32 (arrived stack m) establish_context context

pub establish_request-IsRequest :
    (scope : ℕ) → IsRequest Command.establish_context 17 (establish_request scope)
establish_request-IsRequest scope =
    store32-IsRequest Command.establish_context 17 (request Command.establish_context 17)
      establish_scope scope (omega arith)
      (request-IsRequest Command.establish_context 17 (omega arith))

module _ {P : Type 0} (lib : Pcsc P) (env : Environment) (net : Network (Service P)) where
  -- the context once it is connected to the service and notes the library's number
  abbrev pub connected_context : List ClientContext → (i t number : ℕ) → ClientContext
  connected_context xs i t number = record (new_context xs i t) {
    pcsc_context = number;
    tls_session = some 0;
  }

  -- The client that has established a context in slot `i` over a connection to the service `v`.
  abbrev pub established :
      Client (Service P) → (i t : ℕ) → Tls → Service P → P × ℕ × ℕ → Client (Service P)
  established c i t g v r = record c {
    contexts = some (
        set (contexts_of c.contexts) i (connected_context (contexts_of c.contexts) i t (word r.2)));
    tlsopts = some g;
    world = record { library = r.0; stack = v.stack; reply = none };
  }

  -- what the service makes of the message
  pub asked :
      (v : Service P) (scope : ℕ)
      → let r = lib.establish_context v.library (word scope) in
        let z = arrived v.stack (establish_request scope) in
        handle lib Command.establish_context v.library z ≡ (r.0, establish_answer z r.1 r.2)
  unfolding handle handle_establish_context
  asked v scope =
      let z = arrived v.stack (establish_request scope) in
      ap (λ n. let r = lib.establish_context v.library n in (r.0, establish_answer z r.1 r.2))
        (load32-arrived v.stack (establish_request scope) establish_scope
            (omega (arith, (establish_request-IsRequest scope).size))
          ∙ load32-store32 (request Command.establish_context 17) establish_scope scope)
