-- ===== src/Sockets/Balance.antt =====
-- Which descriptors the transports leave open.
use pcsc_proxy_android.Prelude.{
  ℕ, ◌%◌, ◌≡◌, refl, sym, ◌∙◌, ap, Bool, true, false, Option, none, some, List, ◌∷◌,
}
use mathlib.Core.Path.{subst}
use pcsc_proxy_android.Sockets.Calls.{
  Family, inet, local, unknown, NetOpts, bluetooth, SockAddr, in4, rc, reuse_address, Sys, Resolver,
  Tracks, htons, or_close, or_leave, with_socket, bind_listen,
}
use pcsc_proxy_android.Sockets.Network.{
  pp_listen, pp_connect_by_ip, listen_address, host_address, pp_network_opts,
}
use pcsc_proxy_android.Sockets.Unix.{pp_uxconnect, init_sockaddr_un, pp_unix_opts}
use pcsc_proxy_android.Sockets.Bluetooth.{Bluez, pp_btconnect, pp_bluetooth_opts}
use pcsc_proxy_android.Sockets.Choice.{pp_netopts_init}

-- A call from the state `k` has opened the socket that it returns, or none.
abbrev pub Balanced : {K : Type 0} → (K → List ℕ) → K → K × Option ℕ → Type 0
Balanced fds k (k', none) = fds k' ≡ fds k
Balanced fds k (k', some s) = fds k' ≡ s ∷ fds k

module _ {K : Type 0} (sys : Sys K) (fds : K → List ℕ) (t : Tracks sys fds) where
  -- On the open socket `s` a step runs that closes nothing, and what follows it is balanced.
  or_close-Balanced :
      (k k1 : K) (s : ℕ) (r : K × Bool) (next : K → K × Option ℕ)
      → fds k1 ≡ s ∷ fds k
      → fds r.0 ≡ fds k1
      → ((k2 : K) → fds k2 ≡ s ∷ fds k → Balanced fds k (next k2))
      → Balanced fds k (or_close sys s r next)
  or_close-Balanced k k1 s (k2, true) next a b f = f k2 (b ∙ a)
  or_close-Balanced k k1 s (k2, false) next a b f = t.close_takes k2 s (fds k) (b ∙ a)

  with_socket-Balanced :
      (k : K) (f : Family) (next : ℕ → K → K × Option ℕ)
      → ((s : ℕ) (k1 : K) → fds k1 ≡ s ∷ fds k → Balanced fds k (next s k1))
      → Balanced fds k (with_socket sys k f next)
  with_socket-Balanced k f next h = split (sys.socket k f) refl
    where
      split :
          (r : K × Option ℕ)
          → sys.socket k f ≡ r
          → Balanced fds k (elim r.1 [ none ↦ (r.0, none) | some s ↦ next s r.0 ])
      split (k1, none) e = t.socket_fails k k1 f e
      split (k1, some s) e = h s k1 (t.socket_opens k k1 f s e)

  bind_listen-Balanced :
      (k k1 : K) (s : ℕ) (a : SockAddr) (next : ℕ → K → K × Option ℕ)
      → fds k1 ≡ s ∷ fds k
      → ((k2 : K) → fds k2 ≡ s ∷ fds k → Balanced fds k (next s k2))
      → Balanced fds k (bind_listen sys s a next k1)
  bind_listen-Balanced k k1 s a next e h =
      or_close-Balanced k k1 s (sys.bind k1 s a) _ e (t.bind_keeps k1 s a)
        (λ k2 e2. or_close-Balanced k k2 s (sys.listen k2 s 10) _ e2 (t.listen_keeps k2 s 10) h)

  connect-Balanced :
      (k k1 : K) (s : ℕ) (a : SockAddr)
      → fds k1 ≡ s ∷ fds k
      → Balanced fds k (or_close sys s (sys.connect k1 s a) (λ k2. (k2, some s)))
  connect-Balanced k k1 s a e =
      or_close-Balanced k k1 s (sys.connect k1 s a) (λ k2. (k2, some s)) e (t.connect_keeps k1 s a)
        (λ k2 e2. e2)

  module _ (dns : Resolver) (bz : Bluez K) where
    network_connect-Balanced :
        (k : K) (ip : List ℕ) (port : ℕ) → Balanced fds k (pp_connect_by_ip sys dns k ip port)
    unfolding pp_connect_by_ip
    network_connect-Balanced k ip port = split (host_address sys dns ip)
      where
        split :
            (a : Option ℕ)
            → Balanced fds k (elim a [
              | none ↦ (k, none)
              | some n ↦
                  with_socket sys k inet λ s k1.
                    or_close sys s (sys.connect k1 s (in4 n (htons port))) λ k2. (k2, some s)
            ])
        split none = refl
        split (some n) =
            with_socket-Balanced k inet _ (λ s k1 e. connect-Balanced k k1 s (in4 n (htons port)) e)

    unix_connect-Balanced :
        (k : K) (path : List ℕ) (port : ℕ) → Balanced fds k (pp_uxconnect sys dns k path port)
    unfolding pp_uxconnect
    unix_connect-Balanced k path port = split (init_sockaddr_un path)
      where
        split :
            (a : Option SockAddr)
            → Balanced fds k (elim a [
              | none ↦ (k, none)
              | some n ↦
                  with_socket sys k local
                    λ s k1. or_close sys s (sys.connect k1 s n) λ k2. (k2, some s)
            ])
        split none = refl
        split (some n) = with_socket-Balanced k local _ (λ s k1 e. connect-Balanced k k1 s n e)

    bluetooth_connect-Balanced :
        (k : K) (ba : List ℕ) (port : ℕ) → Balanced fds k (pp_btconnect sys dns bz k ba port)
    unfolding pp_btconnect
    bluetooth_connect-Balanced k ba port = split (bz.str2ba ba)
      where
        split :
            (a : Option ℕ)
            → Balanced fds k (elim a [
              | some n ↦ (k, none)
              | none ↦
                  with_socket sys k bluetooth
                    λ s k1. or_close sys s (sys.connect k1 s (rc 0 (port % 256))) λ k2. (k2, some s)
            ])
        split (some n) = refl
        split none =
            with_socket-Balanced k bluetooth _
              (λ s k1 e. connect-Balanced k k1 s (rc 0 (port % 256)) e)

    chosen :
        (p o : NetOpts K) (k : K) (ip : List ℕ) (port : ℕ)
        → some p ≡ some o
        → Balanced fds k (p.connect k ip port)
        → Balanced fds k (o.connect k ip port)
    chosen p o k ip port e =
        subst (λ z. Balanced fds k (NetOpts.connect z k ip port))
          (ap (λ z. elim z as (λ y. NetOpts K) [ none ↦ p | some q ↦ q ]) e)

    -- Whatever the family, and however the calls answer, as long as they open and close
    -- descriptors as documented: a `connect` of the transport returns the one socket that it
    -- has opened, or fails and leaves none open.
    pub netopts_connect-Balanced :
        (b : Bool) (f : Family) (o : NetOpts K) (k : K) (ip : List ℕ) (port : ℕ)
        → pp_netopts_init sys dns bz b f ≡ some o
        → Balanced fds k (o.connect k ip port)
    unfolding pp_netopts_init pp_network_opts pp_unix_opts pp_bluetooth_opts
    netopts_connect-Balanced b Family.inet o k ip port h =
        chosen (pp_network_opts sys dns) o k ip port h (network_connect-Balanced k ip port)
    netopts_connect-Balanced b Family.inet6 o k ip port h =
        chosen (pp_network_opts sys dns) o k ip port h (network_connect-Balanced k ip port)
    netopts_connect-Balanced true Family.bluetooth o k ip port h =
        chosen (pp_bluetooth_opts sys dns bz) o k ip port h (bluetooth_connect-Balanced k ip port)
    netopts_connect-Balanced false Family.bluetooth o k ip port h = cc
    netopts_connect-Balanced b Family.local o k ip port h =
        chosen (pp_unix_opts sys dns) o k ip port h (unix_connect-Balanced k ip port)
    netopts_connect-Balanced b (unknown n) o k ip port h = cc

    -- `pp_listen` returns the one socket that it has opened, or fails and leaves none open, as long
    -- as `setsockopt` does not fail.
    pub pp_listen-Balanced :
        (k : K) (f : Family) (ip : List ℕ) (port : ℕ)
        → ((k1 : K) (s : ℕ) → (sys.setsockopt k1 s reuse_address).1 ≡ true)
        → Balanced fds k (pp_listen sys dns k f ip port)
    unfolding pp_listen
    pp_listen-Balanced k f ip port ok = split (listen_address sys dns f ip port)
      where
        set_then :
            (s : ℕ) (a : SockAddr) (k1 : K) (r : K × Bool)
            → fds k1 ≡ s ∷ fds k
            → fds r.0 ≡ fds k1
            → r.1 ≡ true
            → Balanced fds k (or_leave sys r (bind_listen sys s a (λ s' k3. (k3, some s'))))
        set_then s a k1 (k2, true) e g h =
            bind_listen-Balanced k k2 s a (λ s' k3. (k3, some s')) (g ∙ e) (λ k3 e3. e3)
        set_then s a k1 (k2, false) e g h = absurd (cc)

        split :
            (a : Option SockAddr)
            → Balanced fds k (elim a [
              | none ↦ (k, none)
              | some n ↦ with_socket sys k f λ s k1.
                  or_leave sys
                    (sys.setsockopt k1 s reuse_address)
                    λ k2. bind_listen sys s n (λ s' k3. (k3, some s')) k2
            ])
        split none = refl
        split (some n) = with_socket-Balanced k f _ (λ s k1 e.
            set_then s n k1 (sys.setsockopt k1 s reuse_address) e
              (t.setsockopt_keeps k1 s reuse_address) (ok k1 s))

    after_socket :
        (k k1 : K) (f : Family) (s : ℕ) (next : ℕ → K → K × Option ℕ)
        → sys.socket k f ≡ (k1, some s)
        → with_socket sys k f next ≡ next s k1
    after_socket k k1 f s next e =
        ap (λ r. elim r.1 as (λ z. K × Option ℕ) [ none ↦ (r.0, none) | some n ↦ next n r.0 ]) e

    after_refusal :
        (r : K × Bool) (k2 : K) (next : K → K × Option ℕ)
        → r ≡ (k2, false)
        → or_leave sys r next ≡ (k2, none)
    after_refusal r k2 next e =
        ap (λ z. elim z.1 as (λ b. K × Option ℕ) [ true ↦ next z.0 | false ↦ (z.0, none) ]) e

    -- Where `setsockopt` fails, `pp_listen` fails and leaves the socket open.
    pub pp_listen_leaks :
        (k k1 k2 : K) (f : Family) (ip : List ℕ) (port s : ℕ) (a : SockAddr)
        → listen_address sys dns f ip port ≡ some a
        → sys.socket k f ≡ (k1, some s)
        → sys.setsockopt k1 s reuse_address ≡ (k2, false)
        → (pp_listen sys dns k f ip port ≡ (k2, none)) × (fds k2 ≡ s ∷ fds k)
    unfolding pp_listen
    pp_listen_leaks k k1 k2 f ip port s a g e h = (
      rw (g, pp_listen)
          (after_socket k k1 f s
              (λ n z.
                or_leave sys (sys.setsockopt z n reuse_address)
                  (bind_listen sys n a (λ s' k3. (k3, some s'))))
              e
            ∙ after_refusal (sys.setsockopt k1 s reuse_address) k2
                (bind_listen sys s a (λ s' k3. (k3, some s'))) h),
      sym (ap (λ r. fds r.0) h) ∙ t.setsockopt_keeps k1 s reuse_address ∙ t.socket_opens k k1 f s e,
    )
