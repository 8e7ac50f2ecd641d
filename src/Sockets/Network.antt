-- ===== src/Sockets/Network.antt =====
-- src/common/network.c, less `pp_recv` and `pp_send`.
use pcsc_proxy_android.Prelude.{ℕ, Option, none, some, List}
use pcsc_proxy_android.Sockets.Calls.{
  Family, inet, SockAddr, in4, in6, blank, reuse_address, Sys, Resolver, htons, NetOpts, or_close,
  or_leave, with_socket, bind_listen,
}

-- `PP_TCP_PORT`
abbrev pub pp_tcp_port : ℕ
pp_tcp_port = 3030

module _ {K : Type 0} (sys : Sys K) (dns : Resolver) where
  -- The address to listen on; of a family that is not known it is left blank, and the code goes on.
  unfoldable pub listen_address : Family → List ℕ → ℕ → Option SockAddr
  listen_address Family.inet ip port = elim (dns.inet_aton ip) [
    | none ↦ none
    | some a ↦ some (in4 a (htons port))
  ]
  listen_address Family.inet6 ip port = elim (dns.inet_pton ip) [
    | none ↦ none
    | some a ↦ some (in6 a (htons port))
  ]
  listen_address f ip port = some (blank f)

  -- Where `setsockopt` fails, the socket stays open.
  unfoldable pub pp_listen : K → Family → List ℕ → ℕ → K × Option ℕ
  unfolding listen_address
  pp_listen k f ip port = elim (listen_address f ip port) [
    | none ↦ (k, none)
    | some a ↦ with_socket sys k f λ s k1.
        or_leave sys (sys.setsockopt k1 s reuse_address)
          λ k2. bind_listen sys s a (λ s' k3. (k3, some s')) k2
  ]

  unfoldable pub pp_accept : K → ℕ → K × Option ℕ
  pp_accept k s =
      let (k', r) = sys.accept k s in elim r [ none ↦ (k', none) | some n ↦ (k', some n) ]

  -- the address of the text or, if it is none, of the host of that name
  unfoldable pub host_address : List ℕ → Option ℕ
  host_address ip = elim (dns.inet_aton ip) [
    | some a ↦ some a
    | none ↦ elim (dns.gethostbyname ip) [ none ↦ none | some a ↦ some a ]
  ]

  unfoldable pub pp_connect_by_ip : K → List ℕ → ℕ → K × Option ℕ
  unfolding host_address
  pp_connect_by_ip k ip port = elim (host_address ip) [
    | none ↦ (k, none)
    | some a ↦
        with_socket sys k inet
          λ s k1. or_close sys s (sys.connect k1 s (in4 a (htons port))) λ k2. (k2, some s)
  ]

  unfoldable pub pp_getport : K → ℕ → Option ℕ
  pp_getport k s = elim (sys.getsockname k s) [
    | none ↦ none
    | some a ↦ elim a [ in4 address port ↦ some port | in6 address port ↦ some port | _ ↦ none ]
  ]

  unfoldable pub pp_network_opts : NetOpts K
  unfolding pp_listen pp_accept pp_connect_by_ip pp_getport
  pp_network_opts = record {
    listen = pp_listen;
    accept = pp_accept;
    connect = pp_connect_by_ip;
    getport = some pp_getport;
  }
