-- ===== src/Client/Calls.antt =====
-- The functions of the PC/SC interface, as src/client/client.c offers them: what they share.
pub mod Context
pub mod Card
pub mod Buffers
pub mod Lists
pub mod StatusChange
use pcsc_proxy_android.Prelude.{ℕ, ◌≡◌, ap, ◌∙◌, Option, none, some}
use pcsc_proxy_android.Memory.{Bytes, zeroed, load32, store8, store32}
use pcsc_proxy_android.Message.Layout.{header_type, header_len}
use pcsc_proxy_android.Message.Command.{Command, code}
use pcsc_proxy_android.Server.Pcsc.{scard_f_internal_error}
use pcsc_proxy_android.Client.State.{
  bind-done, Result, done, undefined, hangs, ClientContext, CardContext, Client, Tls, TlsOpts,
  Environment, M, pure, ◌>>=◌,
}
use pcsc_proxy_android.Client.Tables.{pp_find_context, pp_find_card}
use pcsc_proxy_android.Client.Exchange.{Network, context_at, card_at, pp_exchange_msg}

-- `memset`, `header.type` and `header.len`
abbrev pub request : Command → ℕ → Bytes
request c len = store32 (store8 zeroed header_type (code c)) header_len len

module _ {W : Type 0} (env : Environment) where
  -- `pp_findContext` and what follows; where it returns NULL, `failed` is returned.
  abbrev pub with_context : {A : Type 0} → ℕ → A → (ℕ → ClientContext → M W A) → M W A
  with_context id failed body = pp_find_context env id >>= λ r. elim r [
    | none ↦ pure failed
    | some i ↦ context_at i >>= body i
  ]

  abbrev pub with_card : {A : Type 0} → ℕ → A → (ℕ → CardContext → M W A) → M W A
  with_card id failed body =
      pp_find_card env id >>= λ r. elim r [ none ↦ pure failed | some i ↦ card_at i >>= body i ]

module _ {W : Type 0} (net : Network W) (tls : Tls → TlsOpts W) where
  -- `pp_exchangeMsg` and what follows it on a reply; else the call is an internal error.
  abbrev pub exchange : ℕ → Bytes → (Bytes → M W ℕ) → M W ℕ
  exchange ctx m body = pp_exchange_msg net tls ctx m >>= λ r. elim r [
    | none ↦ pure scard_f_internal_error
    | some m' ↦ body m'
  ]

  -- the many calls that return the result word and nothing else
  abbrev pub exchange_rv : ℕ → Bytes → (rv : ℕ) → M W ℕ
  exchange_rv ctx m rv = exchange ctx m λ m'. pure (load32 m' rv)

  pub exchange_rv-done :
      (ctx : ℕ) (m m' : Bytes) (rv : ℕ) (c c' : Client W)
      → pp_exchange_msg net tls ctx m c ≡ done (some m') c'
      → exchange_rv ctx m rv c ≡ done (load32 m' rv) c'
  exchange_rv-done ctx m m' rv c c' e = bind-done (pp_exchange_msg net tls ctx m) _ (some m') c c' e

module _ {W A : Type 0} (env : Environment) where
  pub with_card-done :
      (id i : ℕ) (failed : A) (body : ℕ → CardContext → M W A) (k : CardContext) (c : Client W)
      → pp_find_card env id c ≡ done (some i) c
      → card_at i c ≡ done k c
      → with_card env id failed body c ≡ body i k c
  with_card-done id i failed body k c e f =
      bind-done (pp_find_card env id) _ (some i) c c e ∙ bind-done (card_at i) (body i) k c c f

  pub with_context-done :
      (id i : ℕ) (failed : A) (body : ℕ → ClientContext → M W A) (x : ClientContext) (c : Client W)
      → pp_find_context env id c ≡ done (some i) c
      → context_at i c ≡ done x c
      → with_context env id failed body c ≡ body i x c
  with_context-done id i failed body x c e f =
      bind-done (pp_find_context env id) _ (some i) c c e
      ∙ bind-done (context_at i) (body i) x c c f
