-- ===== src/Client/Tables/Create.antt =====
-- `pp_createContext` of src/client/client.c where it succeeds.
use pcsc_proxy_android.Prelude.{
  ℕ, ◌+◌, ◌%◌, ◌^◌, ◌≡◌, refl, ◌∙◌, true, false, Option, none, some, List, arith, set, get_or,
  replicate,
}
use pcsc_proxy_android.Client.State.{
  pp_max_context, pp_context_magic, ClientContext, free_context, Tls, TlsOpts, Client, Environment,
  done,
}
use pcsc_proxy_android.Client.Slots.{free_slot, IsTable, replicate-IsTable}
use pcsc_proxy_android.Client.Tables.{
  context_id, is_blank, text_of, wants_nullenc, pp_tlsopts_init_any, check_credentials,
  fill_context, take_context, with_tlsopts, pp_create_context,
}

-- the contexts in the table; where it is not there yet, those that it begins with
abbrev pub contexts_of : Option (List ClientContext) → List ClientContext
contexts_of none = replicate pp_max_context free_context
contexts_of (some xs) = xs

pub contexts_of-IsTable :
    (o : Option (List ClientContext))
    → IsTable context_id pp_context_magic o
    → IsTable context_id pp_context_magic (some (contexts_of o))
contexts_of-IsTable none t = replicate-IsTable context_id pp_context_magic free_context refl
contexts_of-IsTable (some xs) t = t

-- the TLS operations that a first call chooses, and a later one keeps
abbrev pub tls_for : Environment → Option Tls → Option Tls
tls_for env (some g) = some g
tls_for env none = elim env.nullenc_env [
  | none ↦ none
  | some s ↦ pp_tlsopts_init_any env (wants_nullenc s)
]

-- what `pp_createContext` writes into slot `i`
abbrev pub new_context : List ClientContext → ℕ → ℕ → ClientContext
new_context xs i t = record (get_or xs i free_context) {
  id = (i + pp_context_magic) % 2 ^ 32;
  tls_context = some t;
}

module _ {W : Type 0} (env : Environment) (tls : Tls → TlsOpts W) where
  -- What the TLS library and the environment have to give for a context: the operations `g`, an object
  -- for the context, and credentials that are accepted.
  pub record Provided (c : Client W) (g : Tls) (t : ℕ) (w : W) : Type 0 where
    pub ready : env.mutex_rv ≡ 0
    pub memory : env.malloc_ok ≡ true
    pub unlocked : c.context_locked ≡ false
    pub chosen : tls_for env c.tlsopts ≡ some g
    pub between : W
    pub init : TlsOpts.init_client (tls g) c.world ≡ (between, some t)
    pub named : (is_blank env.user ≡ false) × (is_blank env.passwd ≡ false)
    pub auth :
        TlsOpts.client_set_srp_auth (tls g) between t (text_of env.user) (text_of env.passwd)
        ≡ (w, true)

  tlsopts_chosen :
      (o : Option Tls) (c : Client W) (xs : List ClientContext) (g : Tls)
      → c.tlsopts ≡ o
      → tls_for env o ≡ some g
      → with_tlsopts env tls xs c ≡ take_context env tls xs g (record c { tlsopts = some g })
  unfolding with_tlsopts
  tlsopts_chosen none c xs g e h = ground arith
  tlsopts_chosen (some k) c xs g e h = ground arith

  filled :
      (c : Client W) (xs : List ClientContext) (i : ℕ) (g : Tls) (t : ℕ) (w w1 : W)
      → free_slot context_id xs ≡ some i
      → TlsOpts.init_client (tls g) c.world ≡ (w1, some t)
      → is_blank env.user ≡ false
      → is_blank env.passwd ≡ false
      → TlsOpts.client_set_srp_auth (tls g) w1 t (text_of env.user) (text_of env.passwd) ≡ (w, true)
      → take_context env tls xs g c
        ≡ done (some i) (record c { contexts = some (set xs i (new_context xs i t)); world = w })
  unfolding take_context fill_context check_credentials
  filled c xs i g t w w1 f a u p d = ground arith

  create_context_enters :
      (c : Client W)
      → env.mutex_rv ≡ 0
      → env.malloc_ok ≡ true
      → c.context_locked ≡ false
      → pp_create_context env tls c ≡ with_tlsopts env tls (contexts_of c.contexts) c
  unfolding pp_create_context
  create_context_enters c m a l = ground arith

  pub create_context_eq :
      (c : Client W) (i : ℕ) (g : Tls) (t : ℕ) (w : W)
      → Provided c g t w
      → free_slot context_id (contexts_of c.contexts) ≡ some i
      → pp_create_context env tls c
        ≡ done (some i) (record c {
          contexts =
              some (set (contexts_of c.contexts) i (new_context (contexts_of c.contexts) i t));
          tlsopts = some g;
          world = w;
        })
  create_context_eq c i g t w h f =
      let xs = contexts_of c.contexts in
      create_context_enters c h.ready h.memory h.unlocked
      ∙ tlsopts_chosen c.tlsopts c xs g refl h.chosen
      ∙ filled (record c { tlsopts = some g }) xs i g t w h.between f h.init h.named.0 h.named.1
          h.auth
