-- ===== src/Tls/Calls.antt =====
-- The calls of OpenSSL and the heap, over a state `K`, and what is documented of the objects they make.
use pcsc_proxy_android.Prelude.{ℕ, ◌≡◌, Bool, Option, none, some, List, ◌∷◌}

-- the `int` that a call returns
pub data Ret : Type 0 where
  negative zero positive : Ret

-- Objects are known by numbers, `none` is NULL. `malloc` is taken to have memory: the code does not
-- look at its result. `handshake` is `SSL_accept` for a server and `SSL_connect` for a client.
pub record Ossl (K : Type 0) : Type 0 where
  pub malloc : K → K × ℕ
  pub free : K → ℕ → K
  pub ssl_ctx_new : K → (server : Bool) → K × Option ℕ
  pub ssl_ctx_free : K → ℕ → K
  pub set_cipher_list : K → (ctx : ℕ) → K × Ret
  pub set_srp_username : K → (ctx : ℕ) → List ℕ → K × Ret
  pub set_srp_password : K → (ctx : ℕ) → List ℕ → K × Ret
  pub ssl_new : K → (ctx : ℕ) → K × Option ℕ
  pub ssl_free : K → ℕ → K
  pub bio_new_socket : K → (sock : ℕ) → K × Option ℕ
  pub set_bio : K → (ssl bio : ℕ) → K
  pub handshake : K → (server : Bool) → (ssl : ℕ) → K × Ret
  pub shutdown : K → (ssl : ℕ) → K
  pub dh_new : K → K × Option ℕ
  pub dh_free : K → ℕ → K
  pub dh_generate_parameters : K → ℕ → K × Ret
  pub dh_check : K → ℕ → K × Ret
  pub dh_generate_key : K → ℕ → K × Ret
  pub set_tmp_dh : K → (ctx : ℕ) → Option ℕ → K
  pub srp_vbase_new : K → K × Option ℕ
  pub srp_vbase_init : K → ℕ → K × Bool
  pub srp_vbase_free : K → ℕ → K
  pub set_srp_callback : K → (ctx : ℕ) → K
  pub srp_username : K → (ssl : ℕ) → List ℕ
  pub srp_get_by_user : K → (vbase : ℕ) → List ℕ → Option ℕ
  pub set_srp_server_param : K → (ssl user : ℕ) → K × Ret

-- What is documented of the live objects, the newest first: the calls that make an object add it,
-- those that free an object take it away, and a BIO that is given to an SSL object is freed with it.
pub record Lives {K : Type 0} (o : Ossl K) (live : K → List ℕ) : Type 0 where
  pub malloc_adds : (k : K) → live (o.malloc k).0 ≡ (o.malloc k).1 ∷ live k
  pub free_takes : (k : K) (p : ℕ) (rest : List ℕ) → live k ≡ p ∷ rest → live (o.free k p) ≡ rest
  pub ssl_new_adds : (k k' : K) (ctx s : ℕ) → o.ssl_new k ctx ≡ (k', some s) → live k' ≡ s ∷ live k
  pub ssl_new_fails : (k k' : K) (ctx : ℕ) → o.ssl_new k ctx ≡ (k', none) → live k' ≡ live k
  pub ssl_free_takes :
      (k : K) (s : ℕ) (rest : List ℕ) → live k ≡ s ∷ rest → live (o.ssl_free k s) ≡ rest
  pub bio_new_adds :
      (k k' : K) (sock b : ℕ) → o.bio_new_socket k sock ≡ (k', some b) → live k' ≡ b ∷ live k
  pub bio_new_fails :
      (k k' : K) (sock : ℕ) → o.bio_new_socket k sock ≡ (k', none) → live k' ≡ live k
  pub set_bio_joins :
      (k : K) (s b : ℕ) (rest : List ℕ) → live k ≡ b ∷ s ∷ rest → live (o.set_bio k s b) ≡ s ∷ rest
  pub handshake_keeps : (k : K) (server : Bool) (s : ℕ) → live (o.handshake k server s).0 ≡ live k
  pub shutdown_keeps : (k : K) (s : ℕ) → live (o.shutdown k s) ≡ live k
