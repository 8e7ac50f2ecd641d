-- ===== src/Sockets/Unix.antt =====
-- src/common/unix.c: sockets with a name in the abstract namespace of Linux, where the first byte
-- of the path is zero.
use pcsc_proxy_android.Prelude.{ℕ, ◌+◌, true, false, Option, none, some, List, ◌∷◌, length, ltb}
use pcsc_proxy_android.Sockets.Calls.{
  Family, local, SockAddr, un, Sys, Resolver, NetOpts, or_close, with_socket, bind_listen,
}
use pcsc_proxy_android.Sockets.Network.{pp_accept}

-- `sizeof(sun->sun_path)` on Linux
abbrev pub sun_path_size : ℕ
sun_path_size = 108

-- The path is the text in front of its zero byte. The length of the address says how many bytes of
-- `sun_path` count: the zero byte and the text.
unfoldable pub init_sockaddr_un : List ℕ → Option SockAddr
init_sockaddr_un path = elim (ltb sun_path_size (length path + 1)) [
  | true ↦ none
  | false ↦ some (un (0 ∷ path))
]

module _ {K : Type 0} (sys : Sys K) (dns : Resolver) where
  unfoldable pub pp_uxlisten : K → Family → List ℕ → ℕ → K × Option ℕ
  unfolding init_sockaddr_un
  pp_uxlisten k f path channel = elim (init_sockaddr_un path) [
    | none ↦ (k, none)
    | some a ↦ with_socket sys k local λ s. bind_listen sys s a (λ s' k'. (k', some s'))
  ]

  unfoldable pub pp_uxconnect : K → List ℕ → ℕ → K × Option ℕ
  unfolding init_sockaddr_un
  pp_uxconnect k path channel = elim (init_sockaddr_un path) [
    | none ↦ (k, none)
    | some a ↦
        with_socket sys k local λ s k1. or_close sys s (sys.connect k1 s a) λ k2. (k2, some s)
  ]

  unfoldable pub pp_unix_opts : NetOpts K
  unfolding pp_uxlisten pp_uxconnect pp_accept
  pp_unix_opts = record {
    listen = pp_uxlisten;
    accept = pp_accept sys dns;
    connect = pp_uxconnect;
    getport = none;
  }
