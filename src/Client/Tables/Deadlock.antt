-- ===== src/Client/Tables/Deadlock.antt =====
-- The return from `pp_createContext` (src/client/client.c) that leaves the mutex locked.
use pcsc_proxy_android.Prelude.{
  ℕ, ◌≡◌, refl, ◌∙◌, true, false, Option, none, some, List, arith, replicate,
}
use pcsc_proxy_android.Client.State.{
  pp_max_context, ClientContext, free_context, Client, Tls, TlsOpts, Environment, done, hangs,
}
use pcsc_proxy_android.Client.Tables.{
  wants_nullenc, pp_tlsopts_init_any, pp_find_context, pp_release_context, pp_create_context,
  with_tlsopts,
}

-- the contexts once the table is there
abbrev pub contexts_of : Option (List ClientContext) → List ClientContext
contexts_of none = replicate pp_max_context free_context
contexts_of (some xs) = xs

module _ {W : Type 0} (env : Environment) (tls : Tls → TlsOpts W) where
  locked_find : (c : Client W) (id : ℕ) → c.context_locked ≡ true → pp_find_context env id c ≡ hangs
  unfolding pp_find_context
  locked_find c id l = ground arith

  locked_release :
      (c : Client W) (id : ℕ) → c.context_locked ≡ true → pp_release_context env id c ≡ hangs
  unfolding pp_release_context
  locked_release c id l = ground arith

  locked_create : (c : Client W) → c.context_locked ≡ true → pp_create_context env tls c ≡ hangs
  unfolding pp_create_context
  locked_create c l = ground arith

  no_tls :
      (c : Client W) (xs : List ClientContext) (s : List ℕ)
      → c.tlsopts ≡ none
      → env.nullenc_env ≡ some s
      → pp_tlsopts_init_any env (wants_nullenc s) ≡ none
      → with_tlsopts env tls xs c
        ≡ done none (record c { contexts = some xs; context_locked = true })
  unfolding with_tlsopts
  no_tls c xs s t e f = ground arith

  create_enters :
      (c : Client W)
      → env.mutex_rv ≡ 0
      → env.malloc_ok ≡ true
      → c.context_locked ≡ false
      → pp_create_context env tls c ≡ with_tlsopts env tls (contexts_of c.contexts) c
  unfolding pp_create_context
  create_enters c r a l = ground arith

  -- In a build without the transport that the environment asks for, where the mutex works and
  -- there is memory, the first `pp_createContext` fails and leaves its mutex locked: from then on
  -- a search for a context, a release and another attempt to create one wait for ever.
  pub create_context-hangs :
      (c : Client W) (s : List ℕ) (id : ℕ)
      → env.mutex_rv ≡ 0
      → env.malloc_ok ≡ true
      → c.context_locked ≡ false
      → c.tlsopts ≡ none
      → env.nullenc_env ≡ some s
      → pp_tlsopts_init_any env (wants_nullenc s) ≡ none
      → (c' : Client W) × (pp_create_context env tls c ≡ done none c')
        × (pp_find_context env id c' ≡ hangs)
        × (pp_release_context env id c' ≡ hangs)
        × (pp_create_context env tls c' ≡ hangs)
  create_context-hangs c s id r a l t e f =
      let c' : Client W = record c {
        contexts = some (contexts_of c.contexts);
        context_locked = true;
      } in
      (
        c',
        create_enters c r a l ∙ no_tls c (contexts_of c.contexts) s t e f,
        locked_find c' id refl,
        locked_release c' id refl,
        locked_create c' refl,
      )
