-- ===== src/Tls/Remains.antt =====
-- What the set-up of a GnuTLS session leaves behind (src/common/tls.c).
use pcsc_proxy_android.Prelude.{ℕ, ◌≡◌, ◌∙◌, ap, Bool, Option, none, some, List, ◌∷◌}
use pcsc_proxy_android.Tls.Calls.{Ret, negative, zero, positive}
use pcsc_proxy_android.Tls.Gnutls.{
  Gnutls, AnonSession, shaken, prepared, init_anon_session, pp_fini_session, dh_bits,
}

-- What is documented of the live objects, the newest first.
pub record LivesOn {K : Type 0} (g : Gnutls K) (live : K → List ℕ) : Type 0 where
  pub malloc_adds : (k : K) → live (g.malloc k).0 ≡ (g.malloc k).1 ∷ live k
  pub free_takes : (k : K) (p : ℕ) (rest : List ℕ) → live k ≡ p ∷ rest → live (g.free k p) ≡ rest
  pub free_takes_second :
      (k : K) (x p : ℕ) (rest : List ℕ) → live k ≡ x ∷ p ∷ rest → live (g.free k p) ≡ x ∷ rest
  pub init_adds : (k : K) (server : Bool) → live (g.init k server).0 ≡ (g.init k server).1 ∷ live k
  pub deinit_takes :
      (k : K) (s : ℕ) (rest : List ℕ) → live k ≡ s ∷ rest → live (g.deinit k s) ≡ rest
  pub priority_keeps : (k : K) (s : ℕ) → live (g.priority_set k s) ≡ live k
  pub credentials_keep : (k : K) (s c : ℕ) → live (g.credentials_set k s c) ≡ live k
  pub bits_keep : (k : K) (s n : ℕ) → live (g.set_prime_bits k s n) ≡ live k
  pub transport_keeps : (k : K) (s n : ℕ) → live (g.set_transport k s n) ≡ live k
  pub handshake_keeps : (k : K) (s : ℕ) → live (g.handshake k s).0 ≡ live k

module _ {K : Type 0} (g : Gnutls K) (live : K → List ℕ) (l : LivesOn g live) where
  -- Over the live objects `xs` a session has been made of two new ones, which `pp_fini_session` frees;
  -- or the set-up has failed, and the library's session is left.
  abbrev pub Remains : List ℕ → K × Option AnonSession → Type 0
  Remains xs (k, none) = (s : ℕ) × (live k ≡ s ∷ xs)
  Remains xs (k, some s) = (live k ≡ s.gnutls ∷ s.memory ∷ xs) × (live (pp_fini_session g k s) ≡ xs)

  ended :
      (xs : List ℕ) (k : K) (s : AnonSession)
      → live k ≡ s.gnutls ∷ s.memory ∷ xs
      → live (pp_fini_session g k s) ≡ xs
  unfolding pp_fini_session
  ended xs k s h =
      l.free_takes (g.deinit k s.gnutls) s.memory xs (l.deinit_takes k s.gnutls (s.memory ∷ xs) h)

  shaken-Remains :
      (xs : List ℕ) (s : AnonSession) (r : K × Ret)
      → live r.0 ≡ s.gnutls ∷ s.memory ∷ xs
      → Remains xs (shaken g s r)
  shaken-Remains xs s (k, negative) h = (s.gnutls, l.free_takes_second k s.gnutls s.memory xs h)
  shaken-Remains xs s (k, zero) h = (h, ended xs k s h)
  shaken-Remains xs s (k, positive) h = (h, ended xs k s h)

  prepared_keeps : (k : K) (s c sock : ℕ) → live (prepared g k s c sock) ≡ live k
  prepared_keeps k s c sock =
      l.transport_keeps _ s sock
      ∙ l.bits_keep _ s dh_bits
      ∙ l.credentials_keep _ s c
      ∙ l.priority_keeps k s

  -- However the calls answer, as long as they make and free objects as documented: a session
  -- over GnuTLS, of a server or of a client, is made of two objects that its end frees; but
  -- where the set-up fails, only one of the two is freed.
  pub init_anon_session-Remains :
      (server : Bool) (k : K) (credentials sock : ℕ)
      → Remains (live k) (init_anon_session g server k credentials sock)
  init_anon_session-Remains server k credentials sock =
      let (k1, memory) = g.malloc k in
      let (k2, s) = g.init k1 server in
      shaken-Remains (live k) _ (g.handshake (prepared g k2 s credentials sock) s) (
        l.handshake_keeps (prepared g k2 s credentials sock) s
        ∙ prepared_keeps k2 s credentials sock
        ∙ l.init_adds k1 server
        ∙ ap (◌∷◌ s) (l.malloc_adds k))
