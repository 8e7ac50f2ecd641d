-- ===== src/Sockets/Rendezvous.antt =====
-- A service and a client on Unix sockets (src/common/unix.c).
use pcsc_proxy_android.Prelude.{
  ℕ, ◌≤◌, ◌≡◌, refl, sym, ◌∙◌, ap, true, ◌↔◌, Option, none, some, List, ◌∷◌, [], arith, length,
}
use pcsc_proxy_android.Sockets.Calls.{
  Family, local, SockAddr, un, Sys, Resolver, or_close, with_socket, bind_listen,
}
use pcsc_proxy_android.Sockets.Unix.{init_sockaddr_un, sun_path_size, pp_uxlisten, pp_uxconnect}

-- the bytes of `sun_path` that an address uses
abbrev pub path_bytes : SockAddr → ℕ
path_bytes (un p) = length p
path_bytes _ = 0

path_of : SockAddr → List ℕ
path_of (un (x ∷ p)) = p
path_of _ = []

init-some :
    (p : List ℕ) (a : SockAddr)
    → init_sockaddr_un p ≡ some a
    → (path_bytes a ≤ sun_path_size) × (a ≡ un (0 ∷ p))
unfolding init_sockaddr_un
init-some p a h = ground arith

same_path : (p q : List ℕ) (a b : SockAddr) → a ≡ un (0 ∷ p) → b ≡ un (0 ∷ q) → (a ≡ b) ↔ (p ≡ q)
unfolding path_of
same_path p q a b e f = (λ h. ap path_of (sym e ∙ h ∙ f), λ h. e ∙ ap (λ l. un (0 ∷ l)) h ∙ sym f)

module _ {K : Type 0} (sys : Sys K) (dns : Resolver) where
  bound :
      (k k' : K) (s : ℕ) (a : SockAddr)
      → with_socket sys k local (λ n. bind_listen sys n a (λ n' k3. (k3, some n'))) ≡ (k', some s)
      → (k1 : K) × ((sys.bind k1 s a).1 ≡ true)
  bound k k' s a h = ((sys.socket k local).0, ground arith)

  joined :
      (k k' : K) (s : ℕ) (a : SockAddr)
      → with_socket sys k local (λ n k1. or_close sys n (sys.connect k1 n a) λ k2. (k2, some n))
        ≡ (k', some s)
      → (k1 : K) × ((sys.connect k1 s a).1 ≡ true)
  joined k k' s a h = ((sys.socket k local).0, ground arith)

  uxlisten-some :
      (k k' : K) (f : Family) (path : List ℕ) (port s : ℕ)
      → pp_uxlisten sys dns k f path port ≡ (k', some s)
      → (a : SockAddr) × (init_sockaddr_un path ≡ some a)
        × ((k1 : K) × ((sys.bind k1 s a).1 ≡ true))
  unfolding pp_uxlisten
  uxlisten-some k k' f path port s = by_address (init_sockaddr_un path) refl
    where
      by_address :
          (o : Option SockAddr)
          → init_sockaddr_un path ≡ o
          → elim o as (λ z. K × Option ℕ) [
            | none ↦ (k, none)
            | some a ↦ with_socket sys k local λ n. bind_listen sys n a (λ n' k3. (k3, some n'))
          ]
            ≡ (k', some s)
          → (a : SockAddr) × (init_sockaddr_un path ≡ some a)
            × ((k1 : K) × ((sys.bind k1 s a).1 ≡ true))
      by_address none e h = absurd (cc)
      by_address (some a) e h = (a, e, bound k k' s a h)

  uxconnect-some :
      (k k' : K) (path : List ℕ) (port s : ℕ)
      → pp_uxconnect sys dns k path port ≡ (k', some s)
      → (a : SockAddr) × (init_sockaddr_un path ≡ some a)
        × ((k1 : K) × ((sys.connect k1 s a).1 ≡ true))
  unfolding pp_uxconnect
  uxconnect-some k k' path port s = by_address (init_sockaddr_un path) refl
    where
      by_address :
          (o : Option SockAddr)
          → init_sockaddr_un path ≡ o
          → elim o as (λ z. K × Option ℕ) [
            | none ↦ (k, none)
            | some a ↦
                with_socket sys k local
                  λ n k1. or_close sys n (sys.connect k1 n a) λ k2. (k2, some n)
          ]
            ≡ (k', some s)
          → (a : SockAddr) × (init_sockaddr_un path ≡ some a)
            × ((k1 : K) × ((sys.connect k1 s a).1 ≡ true))
      by_address none e h = absurd (cc)
      by_address (some a) e h = (a, e, joined k k' s a h)

  -- the address of a service on the path `p` and the socket `s`, and that of a client on `q` and `r`
  pub record Rendezvous (p q : List ℕ) (s r : ℕ) : Type 0 where
    pub served : SockAddr
    pub asked : SockAddr
    pub bound_there : (k1 : K) × ((sys.bind k1 s served).1 ≡ true)
    pub connected_there : (k1 : K) × ((sys.connect k1 r asked).1 ≡ true)
    pub within : (path_bytes served ≤ sun_path_size) × (path_bytes asked ≤ sun_path_size)
    pub meets : (served ≡ asked) ↔ (p ≡ q)

  -- Where a service that listens on the path `p` has got the socket `s`, and a client that connects by
  -- the path `q` the socket `r`: the service is bound to an address and the client is connected to one,
  -- both stay within `sun_path`, and they are the same address exactly if the paths are the same.
  pub unix-Rendezvous :
      (k k' l l' : K) (f : Family) (p q : List ℕ) (channel port s r : ℕ)
      → pp_uxlisten sys dns k f p channel ≡ (k', some s)
      → pp_uxconnect sys dns l q port ≡ (l', some r)
      → Rendezvous p q s r
  unix-Rendezvous k k' l l' f p q channel port s r e h =
      let (a, ea, ba) = uxlisten-some k k' f p channel s e in
      let (b, eb, cb) = uxconnect-some l l' q port r h in
      record {
        served = a;
        asked = b;
        bound_there = ba;
        connected_there = cb;
        within = ((init-some p a ea).0, (init-some q b eb).0);
        meets = same_path p q a b (init-some p a ea).1 (init-some q b eb).1;
      }
