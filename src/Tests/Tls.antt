-- ===== src/Tests/Tls.antt =====
-- Sessions on a heap that is a list of objects (src/common/openssl.c, src/common/tls.c).
use pcsc_proxy_android.Prelude.{
  if◌then◌else◌, ◌==◌, ℕ, ◌≡◌, refl, ap, true, Option, none, some, List, [], ◌∷◌, arith,
}
use pcsc_proxy_android.Tls.Calls.{Ret, negative, positive, Ossl, Lives}
use pcsc_proxy_android.Tls.Openssl.{init_session}
use pcsc_proxy_android.Tls.Gnutls.{Gnutls, init_anon_session}
use pcsc_proxy_android.Tls.Remains.{LivesOn, Remains, init_anon_session-Remains}
use pcsc_proxy_android.Tls.Objects.{Settled, init_session-Settled}

abbrev dropped : List ℕ → List ℕ
dropped [] = []
dropped (x ∷ xs) = xs

abbrev removed : ℕ → List ℕ → List ℕ
removed p [] = []
removed p (x ∷ xs) = if x == p then xs else x ∷ removed p xs

-- Memory is object 1, SSL objects are 2 and BIOs are 3; there are no contexts, and a handshake ends as
-- told.
abbrev heap : Ret → Ossl (List ℕ)
heap r = record {
  malloc = λ k. (1 ∷ k, 1);
  free = λ k p. dropped k;
  ssl_ctx_new = λ k server. (k, none);
  ssl_ctx_free = λ k c. k;
  set_cipher_list = λ k c. (k, positive);
  set_srp_username = λ k c name. (k, positive);
  set_srp_password = λ k c password. (k, positive);
  ssl_new = λ k c. (2 ∷ k, some 2);
  ssl_free = λ k s. dropped k;
  bio_new_socket = λ k sock. (3 ∷ k, some 3);
  set_bio = λ k s b. dropped k;
  handshake = λ k server s. (k, r);
  shutdown = λ k s. k;
  dh_new = λ k. (k, none);
  dh_free = λ k d. k;
  dh_generate_parameters = λ k d. (k, positive);
  dh_check = λ k d. (k, positive);
  dh_generate_key = λ k d. (k, positive);
  set_tmp_dh = λ k c d. k;
  srp_vbase_new = λ k. (k, none);
  srp_vbase_init = λ k v. (k, true);
  srp_vbase_free = λ k v. k;
  set_srp_callback = λ k c. k;
  srp_username = λ k s. [];
  srp_get_by_user = λ k v name. none;
  set_srp_server_param = λ k s u. (k, positive);
}

given :
    (k k' : List ℕ) (n s : ℕ)
    → ◌≡◌ {A = List ℕ × Option ℕ} (n ∷ k, some n) (k', some s)
    → k' ≡ s ∷ k
given k k' n s h = ground arith

not_none : (k k' : List ℕ) (n : ℕ) → ◌≡◌ {A = List ℕ × Option ℕ} (n ∷ k, some n) (k', none) → k' ≡ k
not_none k k' n h = cc

heap-Lives : (r : Ret) → Lives (heap r) (λ k. k)
heap-Lives r = record {
  malloc_adds = λ k. refl;
  free_takes = λ k p rest h. ap dropped h;
  ssl_new_adds = λ k k' c s h. given k k' 2 s h;
  ssl_new_fails = λ k k' c h. not_none k k' 2 h;
  ssl_free_takes = λ k s rest h. ap dropped h;
  bio_new_adds = λ k k' sock b h. given k k' 3 b h;
  bio_new_fails = λ k k' sock h. not_none k k' 3 h;
  set_bio_joins = λ k s b rest h. ap dropped h;
  handshake_keeps = λ k server s. refl;
  shutdown_keeps = λ k s. refl;
}

init_session-Settled_example :
    Settled
      (heap negative)
      (λ k. k)
      (heap-Lives negative)
      (9 ∷ [])
      (init_session (heap negative) true (9 ∷ []) 5 6)
init_session-Settled_example =
    init_session-Settled (heap negative) (λ k. k) (heap-Lives negative) true (9 ∷ []) 5 6

-- Memory is object 1 and a session is object 2.
abbrev anon_heap : Gnutls (List ℕ)
anon_heap = record {
  malloc = λ k. (1 ∷ k, 1);
  free = λ k p. removed p k;
  global_init = λ k. k;
  global_deinit = λ k. k;
  dh_params_init = λ k. (k, 0);
  dh_params_generate = λ k p n. k;
  allocate_server_credentials = λ k. (k, 0);
  set_server_dh_params = λ k c p. k;
  free_server_credentials = λ k c. k;
  allocate_client_credentials = λ k. (k, 0);
  free_client_credentials = λ k c. k;
  init = λ k server. (2 ∷ k, 2);
  priority_set = λ k s. k;
  credentials_set = λ k s c. k;
  set_prime_bits = λ k s n. k;
  set_transport = λ k s n. k;
  handshake = λ k s. (k, negative);
  deinit = λ k s. dropped k;
}

removed_first : (k : List ℕ) (p : ℕ) (rest : List ℕ) → k ≡ p ∷ rest → removed p k ≡ rest
removed_first k p rest h = rw h (ground arith)

removed_second : (k : List ℕ) (x p : ℕ) (rest : List ℕ) → k ≡ x ∷ p ∷ rest → removed p k ≡ x ∷ rest
removed_second k x p rest h = rw h (ground arith)

anon_heap-LivesOn : LivesOn anon_heap (λ k. k)
anon_heap-LivesOn = record {
  malloc_adds = λ k. refl;
  free_takes = λ k p rest h. removed_first k p rest h;
  free_takes_second = λ k x p rest h. removed_second k x p rest h;
  init_adds = λ k server. refl;
  deinit_takes = λ k s rest h. ap dropped h;
  priority_keeps = λ k s. refl;
  credentials_keep = λ k s c. refl;
  bits_keep = λ k s n. refl;
  transport_keeps = λ k s n. refl;
  handshake_keeps = λ k s. refl;
}

init_anon_session-Remains_example :
    Remains anon_heap
      (λ k. k)
      anon_heap-LivesOn
      (9 ∷ [])
      (init_anon_session anon_heap true (9 ∷ []) 0 6)
init_anon_session-Remains_example =
    init_anon_session-Remains anon_heap (λ k. k) anon_heap-LivesOn true (9 ∷ []) 0 6
