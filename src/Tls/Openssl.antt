-- ===== src/Tls/Openssl.antt =====
-- The set-up functions of src/common/openssl.c.
use pcsc_proxy_android.Prelude.{ℕ, Bool, true, false, Option, none, some, List}
use pcsc_proxy_android.Tls.Calls.{Ret, negative, Ossl}

-- The structs with their members, and `memory` for where they stand.
pub record ServerContext : Type 0 where
  pub memory : ℕ
  pub ssl_ctx : ℕ
  pub srp_vbase : Option ℕ

pub record TlsClient : Type 0 where
  pub memory : ℕ
  pub ssl_ctx : ℕ

pub record TlsSession : Type 0 where
  pub memory : ℕ
  pub ssl : ℕ
  pub bio : ℕ
  pub socket : ℕ

module _ {K : Type 0} (o : Ossl K) where
  -- `if (... < 0)`: 0, by which OpenSSL reports a failure, passes.
  abbrev pub unless_negative : {A : Type 0} → Ret → A → A → A
  unless_negative negative failed next = failed
  unless_negative _ failed next = next

  -- Where `DH_generate_key` fails, the object is freed and returned.
  unfoldable pub setup_dh : K → K × Option ℕ
  setup_dh k =
      let (k1, d) = o.dh_new k in
      elim d [
        | none ↦ (k1, none)
        | some dh ↦
            let (k2, p) = o.dh_generate_parameters k1 dh in
            let (k3, c) = o.dh_check k2 dh in
            let (k4, g) = o.dh_generate_key k3 dh in
            unless_negative p (o.dh_free k2 dh, none)
              (unless_negative c (o.dh_free k3 dh, none)
                (unless_negative g (o.dh_free k4 dh, some dh) (k4, some dh)))
      ]

  -- the callback that looks the user up; `true` is `SSL_ERROR_NONE`
  unfoldable pub srp_server_param_cb : K → (vbase ssl : ℕ) → K × Bool
  srp_server_param_cb k vbase ssl = elim (o.srp_get_by_user k vbase (o.srp_username k ssl)) [
    | none ↦ (k, false)
    | some user ↦
        let (k', r) = o.set_srp_server_param k ssl user in unless_negative r (k', false) (k', true)
  ]

  -- The verifier base, or `none` for -1. The name of the file is always set.
  unfoldable pub srp_init_server : K → (ssl_ctx : ℕ) → K × Option ℕ
  srp_init_server k ssl_ctx =
      let (k1, v) = o.srp_vbase_new k in
      elim v [
        | none ↦ (k1, none)
        | some vbase ↦
            let (k2, ok) = o.srp_vbase_init k1 vbase in
            elim ok [ false ↦ (k2, none) | true ↦ (o.set_srp_callback k2 ssl_ctx, some vbase) ]
      ]

  -- `use_srp` says that the build does not define `OPENSSL_NO_SRP`.
  abbrev pub with_srp : Bool → K → (memory ssl_ctx : ℕ) → K × Option ServerContext
  with_srp false k memory ssl_ctx =
      (k, some (record { memory = memory; ssl_ctx = ssl_ctx; srp_vbase = none }))
  with_srp true k memory ssl_ctx =
      let (k1, v) = srp_init_server k ssl_ctx in
      elim v [
        | none ↦ (o.free k1 memory, none)
        | some b ↦ (k1, some (record { memory = memory; ssl_ctx = ssl_ctx; srp_vbase = some b }))
      ]

  unfoldable pub ossl_init_server : (use_srp : Bool) → K → K × Option ServerContext
  unfolding setup_dh
  ossl_init_server use_srp k =
      let (k1, memory) = o.malloc k in
      let (k2, c) = o.ssl_ctx_new k1 true in
      elim c [
        | none ↦ (k2, none)
        | some ssl_ctx ↦
            let (k3, r) = o.set_cipher_list k2 ssl_ctx in
            let (k4, dh) = setup_dh k3 in
            unless_negative r (o.free k3 memory, none)
              (with_srp use_srp (o.set_tmp_dh k4 ssl_ctx dh) memory ssl_ctx)
      ]

  unfoldable pub ossl_fini_server : K → ServerContext → K
  ossl_fini_server k ctx =
      let k1 : K = elim ctx.srp_vbase [ none ↦ k | some v ↦ o.srp_vbase_free k v ] in
      o.free (o.ssl_ctx_free k1 ctx.ssl_ctx) ctx.memory

  unfoldable pub ossl_init_client : K → K × Option TlsClient
  ossl_init_client k =
      let (k1, memory) = o.malloc k in
      let (k2, c) = o.ssl_ctx_new k1 false in
      elim c [
        | none ↦ (k2, none)
        | some ssl_ctx ↦ (k2, some (record { memory = memory; ssl_ctx = ssl_ctx }))
      ]

  unfoldable pub ossl_fini_client : K → TlsClient → K
  ossl_fini_client k ctx = o.free (o.ssl_ctx_free k ctx.ssl_ctx) ctx.memory

  unfoldable pub ossl_client_set_srp_auth : K → TlsClient → (name password : List ℕ) → K × Bool
  ossl_client_set_srp_auth k ctx name password =
      let (k1, c) = o.set_cipher_list k ctx.ssl_ctx in
      let (k2, u) = o.set_srp_username k1 ctx.ssl_ctx name in
      let (k3, p) = o.set_srp_password k2 ctx.ssl_ctx password in
      unless_negative c (k1, false)
        (unless_negative u (k2, false) (unless_negative p (k3, false) (k3, true)))

  -- what becomes of a session by the result of the handshake
  abbrev pub after_handshake : TlsSession → K × Ret → K × Option TlsSession
  after_handshake s (k, r) =
      unless_negative r (o.free (o.ssl_free k s.ssl) s.memory, none) (k, some s)

  abbrev pub with_bio : Bool → (memory ssl sock : ℕ) → K × Option ℕ → K × Option TlsSession
  with_bio server memory ssl sock (k, none) = (o.free (o.ssl_free k ssl) memory, none)
  with_bio server memory ssl sock (k, some bio) =
      after_handshake (record { memory = memory; ssl = ssl; bio = bio; socket = sock })
        (o.handshake (o.set_bio k ssl bio) server ssl)

  abbrev pub with_ssl : Bool → (memory sock : ℕ) → K × Option ℕ → K × Option TlsSession
  with_ssl server memory sock (k, none) = (o.free k memory, none)
  with_ssl server memory sock (k, some ssl) =
      with_bio server memory ssl sock (o.bio_new_socket k sock)

  -- `ossl_init_server_session` and `ossl_init_client_session` differ in the handshake.
  unfoldable pub init_session : Bool → K → (ssl_ctx sock : ℕ) → K × Option TlsSession
  init_session server k ssl_ctx sock =
      let (k1, memory) = o.malloc k in with_ssl server memory sock (o.ssl_new k1 ssl_ctx)

  unfoldable pub ossl_init_server_session : K → ServerContext → ℕ → K × Option TlsSession
  unfolding init_session
  ossl_init_server_session k ctx sock = init_session true k ctx.ssl_ctx sock

  unfoldable pub ossl_init_client_session : K → TlsClient → ℕ → K × Option TlsSession
  unfolding init_session
  ossl_init_client_session k ctx sock = init_session false k ctx.ssl_ctx sock

  -- `ossl_fini_server_session` and `ossl_fini_client_session`
  unfoldable pub ossl_fini_session : K → TlsSession → K
  ossl_fini_session k s = o.free (o.ssl_free (o.shutdown k s.ssl) s.ssl) s.memory
