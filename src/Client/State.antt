-- ===== src/Client/State.antt =====
-- The global state of src/client/client.c, what it takes from outside, and the monad in which its
-- functions run.
use pcsc_proxy_android.Prelude.{◌≡◌, ap, ℕ, Bool, Option, List, none}
use pcsc_proxy_android.Memory.{Bytes}
use pcsc_proxy_android.Transport.{RecvStatus, SendStatus}

abbrev pub pp_max_context : ℕ
pp_max_context = 64

abbrev pub pp_context_magic : ℕ
pp_context_magic = 0x88345289

abbrev pub pp_card_magic : ℕ
pp_card_magic = 0x38345289

-- Pointers to TLS objects are numbers; `none` is NULL.
pub record ClientContext : Type 0 where
  pub id : ℕ
  pub pcsc_context : ℕ
  pub tls_context : Option ℕ
  pub tls_session : Option ℕ

-- `client_context` is the index that the pointer goes to.
pub record CardContext : Type 0 where
  pub id : ℕ
  pub pcsc_handle : ℕ
  pub client_context : ℕ

-- an array element after `memset(..., 0, ...)`
abbrev pub free_context : ClientContext
free_context = record { id = 0; pcsc_context = 0; tls_context = none; tls_session = none }

abbrev pub free_card : CardContext
free_card = record { id = 0; pcsc_handle = 0; client_context = 0 }

-- the two implementations of `tlsopts_t`
pub data Tls : Type 0 where
  nullenc openssl : Tls

-- `W` is the state of everything outside: sockets, the TLS library, the peer.
pub record Client (W : Type 0) : Type 0 where
  pub contexts : Option (List ClientContext)
  pub cards : Option (List CardContext)
  pub context_locked : Bool
  pub card_locked : Bool
  pub tlsopts : Option Tls
  pub world : W

-- `tlsopts_t` of src/common/tlsopts.h, the client's part. A call that fails returns `none` or `false`.
pub record TlsOpts (W : Type 0) : Type 0 where
  pub init_client : W → W × Option ℕ
  pub fini_client : W → ℕ → W
  pub client_set_srp_auth : W → ℕ → (name password : List ℕ) → W × Bool
  pub init_client_session : W → (context socket : ℕ) → W × Option ℕ
  pub fini_client_session : W → (context session : ℕ) → W
  pub recv : W → (session : ℕ) → Bytes → W × Bytes × RecvStatus
  pub send : W → (session : ℕ) → Bytes → W × SendStatus
  pub get_socket : W → (session : ℕ) → ℕ

-- What the build and the process environment decide. `mutex_rv` is what `pthread_mutex_lock`
-- returns where it does not wait, and `malloc_ok` says whether memory is to be had.
pub record Environment : Type 0 where
  pub enable_nullenc : Bool
  pub use_openssl : Bool
  pub malloc_ok : Bool
  pub mutex_rv : ℕ
  pub nullenc_env : Option (List ℕ)
  pub user : Option (List ℕ)
  pub passwd : Option (List ℕ)

-- A call returns, does something that C leaves undefined (a null pointer, an array element that is
-- not there), or waits for ever.
pub data Result (S A : Type 0) : Type 0 where
  done : A → S → Result S A
  undefined hangs : Result S A

abbrev pub M : Type 0 → Type 0 → Type 0
M W A = Client W → Result (Client W) A

abbrev pub pure : {W A : Type 0} → A → M W A
pure a c = done a c

infixl 5 ◌>>=◌ ◌>>◌
abbrev pub ◌>>=◌ : {W A B : Type 0} → M W A → (A → M W B) → M W B
◌>>=◌ m f c = elim (m c) [ done a c' ↦ f a c' | undefined ↦ undefined | hangs ↦ hangs ]

abbrev pub ◌>>◌ : {W B : Type 0} → M W (Unit {0}) → M W B → M W B
m >> k = m >>= λ _. k

-- A call that returns goes on with what follows it.
pub bind-done :
    {W A B : Type 0} (m : M W A) (f : A → M W B) (a : A) (c c' : Client W)
    → m c ≡ done a c'
    → (m >>= f) c ≡ f a c'
bind-done m f a c c' e =
    ap (λ r. elim r [ done b k ↦ f b k | undefined ↦ undefined | hangs ↦ hangs ]) e
