-- ===== src/Tls/Objects.antt =====
-- Which objects the set-up of a session leaves behind.
use pcsc_proxy_android.Prelude.{ℕ, ◌≡◌, refl, ◌∙◌, ap, Bool, Option, none, some, List, ◌∷◌}
use pcsc_proxy_android.Tls.Calls.{Ret, negative, zero, positive, Ossl, Lives}
use pcsc_proxy_android.Tls.Openssl.{
  TlsSession, init_session, with_ssl, with_bio, after_handshake, ossl_fini_session,
}

module _ {K : Type 0} (o : Ossl K) (live : K → List ℕ) (l : Lives o live) where
  -- Over the live objects `xs` a session has been made of two new ones, which `ossl_fini_session`
  -- frees, or none is left of it.
  abbrev pub Settled : List ℕ → K × Option TlsSession → Type 0
  Settled xs (k, none) = live k ≡ xs
  Settled xs (k, some s) = (live k ≡ s.ssl ∷ s.memory ∷ xs) × (live (ossl_fini_session o k s) ≡ xs)

  undone :
      (xs : List ℕ) (k : K) (ssl memory : ℕ)
      → live k ≡ ssl ∷ memory ∷ xs
      → live (o.free (o.ssl_free k ssl) memory) ≡ xs
  undone xs k ssl memory h =
      l.free_takes (o.ssl_free k ssl) memory xs (l.ssl_free_takes k ssl (memory ∷ xs) h)

  finished :
      (xs : List ℕ) (k : K) (s : TlsSession)
      → live k ≡ s.ssl ∷ s.memory ∷ xs
      → live (ossl_fini_session o k s) ≡ xs
  unfolding ossl_fini_session
  finished xs k s h = undone xs (o.shutdown k s.ssl) s.ssl s.memory (l.shutdown_keeps k s.ssl ∙ h)

  handshaken :
      (xs : List ℕ) (s : TlsSession) (r : K × Ret)
      → live r.0 ≡ s.ssl ∷ s.memory ∷ xs
      → Settled xs (after_handshake o s r)
  handshaken xs s (k, negative) h = undone xs k s.ssl s.memory h
  handshaken xs s (k, zero) h = (h, finished xs k s h)
  handshaken xs s (k, positive) h = (h, finished xs k s h)

  on_socket :
      (xs : List ℕ) (memory ssl sock : ℕ) (server : Bool) (k : K) (r : K × Option ℕ)
      → live k ≡ ssl ∷ memory ∷ xs
      → o.bio_new_socket k sock ≡ r
      → Settled xs (with_bio o server memory ssl sock r)
  on_socket xs memory ssl sock server k (k', none) h e =
      undone xs k' ssl memory (l.bio_new_fails k k' sock e ∙ h)
  on_socket xs memory ssl sock server k (k', some bio) h e =
      handshaken xs _ (o.handshake (o.set_bio k' ssl bio) server ssl) (
        l.handshake_keeps (o.set_bio k' ssl bio) server ssl
        ∙ l.set_bio_joins k' ssl bio (memory ∷ xs)
            (l.bio_new_adds k k' sock bio e ∙ ap (◌∷◌ bio) h))

  on_ssl :
      (xs : List ℕ) (memory ssl_ctx sock : ℕ) (server : Bool) (k : K) (r : K × Option ℕ)
      → live k ≡ memory ∷ xs
      → o.ssl_new k ssl_ctx ≡ r
      → Settled xs (with_ssl o server memory sock r)
  on_ssl xs memory ssl_ctx sock server k (k', none) h e =
      l.free_takes k' memory xs (l.ssl_new_fails k k' ssl_ctx e ∙ h)
  on_ssl xs memory ssl_ctx sock server k (k', some ssl) h e =
      on_socket xs memory ssl sock server k' (o.bio_new_socket k' sock)
        (l.ssl_new_adds k k' ssl_ctx ssl e ∙ ap (◌∷◌ ssl) h) refl

  -- The set-up of a session over OpenSSL, of a server or of a client, leaks nothing, however the calls
  -- answer, as long as they make and free objects as documented: if it gives no session, no object is
  -- left of it; if it gives one, exactly two objects are new, the session's memory and its SSL object,
  -- and the end of the session frees both.
  pub init_session-Settled :
      (server : Bool) (k : K) (ssl_ctx sock : ℕ)
      → Settled (live k) (init_session o server k ssl_ctx sock)
  unfolding init_session
  init_session-Settled server k ssl_ctx sock =
      on_ssl (live k) (o.malloc k).1 ssl_ctx sock server (o.malloc k).0
        (o.ssl_new (o.malloc k).0 ssl_ctx) (l.malloc_adds k) refl

  -- A handshake that fails with the result 0, as when the peer ends it, counts as one that has been
  -- made: the session is given out.
  pub handshake_unmade :
      (server : Bool) (k k1 k2 k3 : K) (ssl_ctx sock ssl bio : ℕ)
      → o.ssl_new (o.malloc k).0 ssl_ctx ≡ (k1, some ssl)
      → o.bio_new_socket k1 sock ≡ (k2, some bio)
      → o.handshake (o.set_bio k2 ssl bio) server ssl ≡ (k3, zero)
      → init_session o server k ssl_ctx sock
        ≡ (k3, some (record { memory = (o.malloc k).1; ssl = ssl; bio = bio; socket = sock }))
  unfolding init_session
  handshake_unmade server k k1 k2 k3 ssl_ctx sock ssl bio e f h =
      ap (with_ssl o server (o.malloc k).1 sock) e
      ∙ ap (with_bio o server (o.malloc k).1 ssl sock) f
      ∙ ap
          (after_handshake o
            (record { memory = (o.malloc k).1; ssl = ssl; bio = bio; socket = sock }))
          h
