-- ===== src/Sockets/Names.antt =====
-- Ports and Bluetooth addresses: what a service listens on and a client connects to
-- (src/common/network.c, src/common/bluetooth.c).
use pcsc_proxy_android.Prelude.{
  ℕ, suc, ◌%◌, ◌≡◌, refl, sym, ◌∙◌, ap, true, Option, none, some, List, arith,
}
use pcsc_proxy_android.Sockets.Calls.{
  Family, SockAddr, in4, in6, rc, bluetooth, reuse_address, Sys, Resolver, or_close, with_socket,
  bind_listen,
}
use pcsc_proxy_android.Sockets.Network.{listen_address, pp_listen, pp_getport}
use pcsc_proxy_android.Sockets.Bluetooth.{Bluez, pp_btconnect}

abbrev pub show_port : SockAddr → Option ℕ
show_port (in4 address port) = some port
show_port (in6 address port) = some port
show_port _ = none

module _ {K : Type 0} (sys : Sys K) (dns : Resolver) (bz : Bluez K) where
  reached_blindly :
      (text : List ℕ) (k k' : K) (s channel : ℕ)
      → with_socket sys k bluetooth
          (λ s' k1. or_close sys s' (sys.connect k1 s' (rc 0 (channel % 256))) λ k2. (k2, some s'))
        ≡ (k', some s)
      → (k1 : K) × (sys.connect k1 s (rc 0 (channel % 256)) ≡ (k', true))
  reached_blindly text k k' s channel h = ((sys.socket k bluetooth).0, ground arith)

  -- `pp_btconnect` never connects to the device that it is told: on a text that is a Bluetooth address
  -- it fails with no call made, and where it succeeds the text is no address, and the connection is one
  -- to the address 0. The test of `str2ba`, which returns 0 for success, is the wrong way round.
  pub pp_btconnect_blind :
      (k k' : K) (text : List ℕ) (channel s : ℕ)
      → ((address : ℕ)
          → bz.str2ba text ≡ some address
          → pp_btconnect sys dns bz k text channel ≡ (k, none))
        × (pp_btconnect sys dns bz k text channel ≡ (k', some s)
            → (bz.str2ba text ≡ none)
              × ((k1 : K) × (sys.connect k1 s (rc 0 (channel % 256)) ≡ (k', true))))
  unfolding pp_btconnect
  pp_btconnect_blind k k' text channel s =
      (λ address h. rw (h, pp_btconnect) refl, λ h. by_address (bz.str2ba text) refl h)
    where
      by_address :
          (a : Option ℕ)
          → bz.str2ba text ≡ a
          → elim a as (λ z. K × Option ℕ) [
            | some n ↦ (k, none)
            | none ↦ with_socket sys k bluetooth λ s' k1.
                or_close sys s' (sys.connect k1 s' (rc 0 (channel % 256))) λ k2. (k2, some s')
          ]
            ≡ (k', some s)
          → (bz.str2ba text ≡ none)
            × ((k1 : K) × (sys.connect k1 s (rc 0 (channel % 256)) ≡ (k', true)))
      by_address (some n) e h = absurd (cc)
      by_address none e h = (e, reached_blindly text k k' s channel h)

  -- What is documented of `getsockname`: it shows the address that the socket has been bound to, but
  -- for a port left to the kernel, and `listen` does not change that.
  pub record ShowsBound : Type 0 where
    pub bind_shows :
        (k k' : K) (s : ℕ) (a : SockAddr) (port : ℕ)
        → sys.bind k s a ≡ (k', true)
        → show_port a ≡ some (suc port)
        → sys.getsockname k' s ≡ some a
    pub listen_keeps :
        (k : K) (s n : ℕ) → sys.getsockname (sys.listen k s n).0 s ≡ sys.getsockname k s

  bind_listen-some :
      (k k' : K) (s s' : ℕ) (a : SockAddr)
      → bind_listen sys s a (λ n k3. (k3, some n)) k ≡ (k', some s')
      → (s ≡ s') × ((sys.bind k s a).1 ≡ true) × ((sys.listen (sys.bind k s a).0 s 10).0 ≡ k')
  bind_listen-some k k' s s' a h = ground arith

  pp_listen-some :
      (k k' : K) (f : Family) (ip : List ℕ) (port s : ℕ) (a : SockAddr)
      → listen_address sys dns f ip port ≡ some a
      → pp_listen sys dns k f ip port ≡ (k', some s)
      → (k1 : K) × ((sys.bind k1 s a).1 ≡ true) × ((sys.listen (sys.bind k1 s a).0 s 10).0 ≡ k')
  unfolding pp_listen
  pp_listen-some k k' f ip port s a e h =
      let k1 : K = (sys.setsockopt (sys.socket k f).0 s reuse_address).0 in
      (k1, ground arith, ground arith)

  getport-shown :
      (k : K) (s port : ℕ) (a : SockAddr)
      → sys.getsockname k s ≡ some a
      → show_port a ≡ some port
      → pp_getport sys dns k s ≡ some port
  unfolding pp_getport
  getport-shown k s port a e h = ground arith

  -- A service that listens on an IPv4 or IPv6 address, on a port that is not left to the kernel, is
  -- told by `pp_getport` the port that it has asked for (its low 16 bits).
  pub getport-listen :
      (shows : ShowsBound) (k k' : K) (f : Family) (ip : List ℕ) (port p s : ℕ) (a : SockAddr)
      → listen_address sys dns f ip port ≡ some a
      → show_port a ≡ some (suc p)
      → pp_listen sys dns k f ip port ≡ (k', some s)
      → pp_getport sys dns k' s ≡ some (suc p)
  getport-listen shows k k' f ip port p s a e q h =
      let (k1, b, l) = pp_listen-some k k' f ip port s a e h in
      getport-shown k' s (suc p) a
        (ap (λ z. sys.getsockname z s) (sym l)
          ∙ shows.listen_keeps (sys.bind k1 s a).0 s 10
          ∙ shows.bind_shows k1 (sys.bind k1 s a).0 s a p (ap (λ o. ((sys.bind k1 s a).0, o)) b) q)
        q
