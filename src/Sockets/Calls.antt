-- ===== src/Sockets/Calls.antt =====
-- The system calls that the transports make, over a state `K` of the kernel, and what their
-- documentation says of them.
use pcsc_proxy_android.Prelude.{ℕ, ◌%◌, ◌≡◌, Bool, true, false, Option, none, some, List, ◌∷◌}

-- `AF_INET`, `AF_INET6`, `AF_UNIX`, `AF_BLUETOOTH`, and any other number
pub data Family : Type 0 where
  inet inet6 local bluetooth : Family
  unknown : ℕ → Family

-- A socket address, as much of it as the code fills in. `blank` has a family and nothing else.
pub data SockAddr : Type 0 where
  in4 : (address port : ℕ) → SockAddr
  in6 : (address port : ℕ) → SockAddr
  un : (path : List ℕ) → SockAddr
  rc : (address channel : ℕ) → SockAddr
  blank : Family → SockAddr

-- the options that the code sets
pub data SockOption : Type 0 where
  reuse_address link_encrypt : SockOption

-- A call that returns -1 returns `none` or `false`. `getsockname` shows the local address.
pub record Sys (K : Type 0) : Type 0 where
  pub socket : K → Family → K × Option ℕ
  pub setsockopt : K → (s : ℕ) → SockOption → K × Bool
  pub bind : K → (s : ℕ) → SockAddr → K × Bool
  pub listen : K → (s backlog : ℕ) → K × Bool
  pub accept : K → (s : ℕ) → K × Option ℕ
  pub connect : K → (s : ℕ) → SockAddr → K × Bool
  pub getsockname : K → (s : ℕ) → Option SockAddr
  pub close : K → (s : ℕ) → K

-- `inet_aton`, `inet_pton` and `gethostbyname`
pub record Resolver : Type 0 where
  pub inet_aton : List ℕ → Option ℕ
  pub inet_pton : List ℕ → Option ℕ
  pub gethostbyname : List ℕ → Option ℕ

-- `htons` of an `int`
abbrev pub htons : ℕ → ℕ
htons port = port % 65536

-- What is documented of the descriptors: a new socket is a new open descriptor, `close` takes it
-- away, and the other calls open and close nothing.
pub record Tracks {K : Type 0} (sys : Sys K) (fds : K → List ℕ) : Type 0 where
  pub socket_opens :
      (k k' : K) (f : Family) (s : ℕ) → sys.socket k f ≡ (k', some s) → fds k' ≡ s ∷ fds k
  pub socket_fails : (k k' : K) (f : Family) → sys.socket k f ≡ (k', none) → fds k' ≡ fds k
  pub accept_opens : (k k' : K) (l s : ℕ) → sys.accept k l ≡ (k', some s) → fds k' ≡ s ∷ fds k
  pub accept_fails : (k k' : K) (l : ℕ) → sys.accept k l ≡ (k', none) → fds k' ≡ fds k
  pub close_takes : (k : K) (s : ℕ) (rest : List ℕ) → fds k ≡ s ∷ rest → fds (sys.close k s) ≡ rest
  pub setsockopt_keeps : (k : K) (s : ℕ) (o : SockOption) → fds (sys.setsockopt k s o).0 ≡ fds k
  pub bind_keeps : (k : K) (s : ℕ) (a : SockAddr) → fds (sys.bind k s a).0 ≡ fds k
  pub listen_keeps : (k : K) (s n : ℕ) → fds (sys.listen k s n).0 ≡ fds k
  pub connect_keeps : (k : K) (s : ℕ) (a : SockAddr) → fds (sys.connect k s a).0 ≡ fds k

-- `netopts_t` of src/common/netopts.h, less `recv` and `send` (see Transport)
pub record NetOpts (K : Type 0) : Type 0 where
  pub listen : K → Family → (ip : List ℕ) → (port : ℕ) → K × Option ℕ
  pub accept : K → ℕ → K × Option ℕ
  pub connect : K → (ip : List ℕ) → (port : ℕ) → K × Option ℕ
  pub getport : Option (K → ℕ → Option ℕ)

module _ {K : Type 0} (sys : Sys K) where
  -- A step that closes the socket where it fails.
  abbrev pub or_close : ℕ → K × Bool → (K → K × Option ℕ) → K × Option ℕ
  or_close s (k, ok) next = elim ok [ true ↦ next k | false ↦ (sys.close k s, none) ]

  -- A step that only returns where it fails.
  abbrev pub or_leave : K × Bool → (K → K × Option ℕ) → K × Option ℕ
  or_leave (k, ok) next = elim ok [ true ↦ next k | false ↦ (k, none) ]

  -- `socket`, and what follows on a new socket
  abbrev pub with_socket : K → Family → (ℕ → K → K × Option ℕ) → K × Option ℕ
  with_socket k f next =
      let (k', r) = sys.socket k f in elim r [ none ↦ (k', none) | some s ↦ next s k' ]

  -- `bind`, `listen(s, 10)` and `return s`
  abbrev pub bind_listen : ℕ → SockAddr → (ℕ → K → K × Option ℕ) → K → K × Option ℕ
  bind_listen s a next k =
      or_close s (sys.bind k s a) λ k1. or_close s (sys.listen k1 s 10) λ k2. next s k2
