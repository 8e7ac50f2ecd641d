-- ===== src/Tls/Nullenc.antt =====
-- The set-up functions of src/common/nullenc.c: a context holds nothing that is used, a session holds
-- the socket.
use pcsc_proxy_android.Prelude.{ℕ, Bool, true, Option, some, List}
use pcsc_proxy_android.Tls.Calls.{Ossl}

pub record PlainSession : Type 0 where
  pub memory : ℕ
  pub socket : ℕ

module _ {K : Type 0} (o : Ossl K) where
  -- `nullenc_init_server` and `nullenc_init_client`; the context is the memory that it stands in.
  unfoldable pub nullenc_init : K → K × Option ℕ
  nullenc_init k = let (k', memory) = o.malloc k in (k', some memory)

  unfoldable pub nullenc_fini : K → ℕ → K
  nullenc_fini k memory = o.free k memory

  unfoldable pub nullenc_client_set_srp_auth : K → ℕ → (name password : List ℕ) → K × Bool
  nullenc_client_set_srp_auth k ctx name password = (k, true)

  -- `nullenc_init_server_session` and `nullenc_init_client_session`
  unfoldable pub nullenc_init_session : K → (context sock : ℕ) → K × Option PlainSession
  nullenc_init_session k context sock =
      let (k', memory) = o.malloc k in (k', some (record { memory = memory; socket = sock }))

  unfoldable pub nullenc_fini_session : K → PlainSession → K
  nullenc_fini_session k s = o.free k s.memory

  unfoldable pub nullenc_tls_get_socket : PlainSession → ℕ
  nullenc_tls_get_socket s = s.socket
