-- ===== src/Tls/Gnutls.antt =====
-- The set-up functions of src/common/tls.c, over the calls of GnuTLS. No result but that of the
-- handshake is looked at.
use pcsc_proxy_android.Prelude.{ℕ, Bool, true, false, Option, none, some}
use pcsc_proxy_android.Tls.Calls.{Ret, negative}

-- the calls that make something give the number of an object
pub record Gnutls (K : Type 0) : Type 0 where
  pub malloc : K → K × ℕ
  pub free : K → ℕ → K
  pub global_init : K → K
  pub global_deinit : K → K
  pub dh_params_init : K → K × ℕ
  pub dh_params_generate : K → (params bits : ℕ) → K
  pub allocate_server_credentials : K → K × ℕ
  pub set_server_dh_params : K → (credentials params : ℕ) → K
  pub free_server_credentials : K → ℕ → K
  pub allocate_client_credentials : K → K × ℕ
  pub free_client_credentials : K → ℕ → K
  pub init : K → (server : Bool) → K × ℕ
  pub priority_set : K → (session : ℕ) → K
  pub credentials_set : K → (session credentials : ℕ) → K
  pub set_prime_bits : K → (session bits : ℕ) → K
  pub set_transport : K → (session sock : ℕ) → K
  pub handshake : K → (session : ℕ) → K × Ret
  pub deinit : K → (session : ℕ) → K

-- The structs with their members, and `memory` for where they stand.
pub record AnonServer : Type 0 where
  pub memory : ℕ
  pub dh_params : ℕ
  pub anoncred : ℕ

pub record AnonClient : Type 0 where
  pub memory : ℕ
  pub anoncred : ℕ

pub record AnonSession : Type 0 where
  pub memory : ℕ
  pub gnutls : ℕ
  pub socket : ℕ

-- `DH_BITS`
abbrev pub dh_bits : ℕ
dh_bits = 1024

module _ {K : Type 0} (g : Gnutls K) where
  unfoldable pub pp_init_server : K → K × AnonServer
  pp_init_server k =
      let (k1, memory) = g.malloc k in
      let (k2, params) = g.dh_params_init (g.global_init k1) in
      let (k3, credentials) =
        g.allocate_server_credentials (g.dh_params_generate k2 params dh_bits) in
      (
        g.set_server_dh_params k3 credentials params,
        record { memory = memory; dh_params = params; anoncred = credentials },
      )

  -- The parameters are not freed.
  unfoldable pub pp_fini_server : K → AnonServer → K
  pp_fini_server k ctx =
      g.free (g.global_deinit (g.free_server_credentials k ctx.anoncred)) ctx.memory

  unfoldable pub pp_init_client : K → K × AnonClient
  pp_init_client k =
      let (k1, memory) = g.malloc k in
      let (k2, credentials) = g.allocate_client_credentials (g.global_init k1) in
      (k2, record { memory = memory; anoncred = credentials })

  unfoldable pub pp_fini_client : K → AnonClient → K
  pp_fini_client k ctx =
      g.free (g.global_deinit (g.free_client_credentials k ctx.anoncred)) ctx.memory

  -- Where the handshake fails the struct is freed, but not the session of the library.
  abbrev pub shaken : AnonSession → K × Ret → K × Option AnonSession
  shaken s (k, negative) = (g.free k s.memory, none)
  shaken s (k, _) = (k, some s)

  -- what is set before the handshake
  abbrev pub prepared : K → (session credentials sock : ℕ) → K
  prepared k session credentials sock =
      let k1 = g.credentials_set (g.priority_set k session) session credentials in
      g.set_transport (g.set_prime_bits k1 session dh_bits) session sock

  -- `pp_init_server_session` and `pp_init_client_session` differ in the role.
  abbrev pub init_anon_session : Bool → K → (credentials sock : ℕ) → K × Option AnonSession
  init_anon_session server k credentials sock =
      let (k1, memory) = g.malloc k in
      let (k2, session) = g.init k1 server in
      shaken (record { memory = memory; gnutls = session; socket = sock })
        (g.handshake (prepared k2 session credentials sock) session)

  unfoldable pub pp_init_server_session : K → AnonServer → ℕ → K × Option AnonSession
  pp_init_server_session k ctx sock = init_anon_session true k ctx.anoncred sock

  unfoldable pub pp_init_client_session : K → AnonClient → ℕ → K × Option AnonSession
  pp_init_client_session k ctx sock = init_anon_session false k ctx.anoncred sock

  -- `pp_fini_server_session` and `pp_fini_client_session`
  unfoldable pub pp_fini_session : K → AnonSession → K
  pp_fini_session k s = g.free (g.deinit k s.gnutls) s.memory

  unfoldable pub pp_tls_get_socket : AnonSession → ℕ
  pp_tls_get_socket s = s.socket
