-- ===== src/Tests/Sockets.antt =====
-- A small kernel, on which the transports open, close and name sockets (src/common/network.c,
-- src/common/unix.c, src/common/bluetooth.c), and a client that connects (src/client/client.c).
use pcsc_proxy_android.Prelude.{
  ℕ, ◌+◌, ◌≡◌, refl, sym, ap, Bool, true, false, Option, none, some, List, [], ◌∷◌, arith, length,
  if◌then◌else◌, ◌==◌,
}
use pcsc_proxy_android.Sockets.Calls.{inet, local, SockAddr, in4, un, Sys, Resolver, Tracks}
use pcsc_proxy_android.Sockets.Network.{pp_listen, pp_network_opts, pp_connect_by_ip, host_address}
use pcsc_proxy_android.Client.State.{done}
use pcsc_proxy_android.Client.Address.{Surroundings, Net, service_place, connect_service}
use pcsc_proxy_android.Sockets.Unix.{pp_uxlisten, pp_uxconnect}
use pcsc_proxy_android.Sockets.Rendezvous.{Rendezvous, unix-Rendezvous}
use pcsc_proxy_android.Sockets.Bluetooth.{Bluez}
use pcsc_proxy_android.Sockets.Choice.{pp_netopts_init}
use pcsc_proxy_android.Sockets.Balance.{Balanced, netopts_connect-Balanced, pp_listen-Balanced}
use pcsc_proxy_android.Sockets.Names.{ShowsBound}

-- the open descriptors, and the address bound last
pub record Kernel : Type 0 where
  pub open_fds : List ℕ
  pub bound : Option SockAddr

abbrev remove : List ℕ → ℕ → List ℕ
remove [] s = []
remove (x ∷ xs) s = if x == s then xs else x ∷ remove xs s

abbrev pub open_one : Kernel → Kernel × Option ℕ
open_one k = let s = 3 + length k.open_fds in (record k { open_fds = s ∷ k.open_fds }, some s)

-- `setsockopt` answers as told, `connect` to port 1 fails, and all else succeeds.
abbrev pub small : (options : Bool) → Sys Kernel
small options = record {
  socket = λ k f. open_one k;
  setsockopt = λ k s o. (k, options);
  bind = λ k s a. (record k { bound = some a }, true);
  listen = λ k s n. (k, true);
  accept = λ k s. open_one k;
  connect =
      λ k s a. (k, elim a [ in4 address port ↦ if port == 1 then false else true | _ ↦ true ]);
  getsockname = λ k s. k.bound;
  close = λ k s. record k { open_fds = remove k.open_fds s };
}

opened : (k k' : Kernel) (s : ℕ) → open_one k ≡ (k', some s) → k'.open_fds ≡ s ∷ k.open_fds
opened k k' s h = ground arith

never_fails : (k k' : Kernel) → open_one k ≡ (k', none) → k'.open_fds ≡ k.open_fds
never_fails k k' h = cc

removed : (k : Kernel) (s : ℕ) (rest : List ℕ) → k.open_fds ≡ s ∷ rest → remove k.open_fds s ≡ rest
removed k s rest h = rw h (ground arith)

pub small-Tracks : (options : Bool) → Tracks (small options) (λ k. k.open_fds)
small-Tracks options = record {
  socket_opens = λ k k' f s h. opened k k' s h;
  socket_fails = λ k k' f h. never_fails k k' h;
  accept_opens = λ k k' l s h. opened k k' s h;
  accept_fails = λ k k' l h. never_fails k k' h;
  close_takes = λ k s rest h. removed k s rest h;
  setsockopt_keeps = λ k s o. refl;
  bind_keeps = λ k s a. refl;
  listen_keeps = λ k s n. refl;
  connect_keeps = λ k s a. refl;
}

-- Every text is the address 7, but for the empty one, which is no address and no host.
abbrev pub resolver : Resolver
resolver =
    let one : List ℕ → Option ℕ = λ t. elim t [ [] ↦ none | c ∷ cs ↦ some 7 ] in
    record { inet_aton = one; inet_pton = one; gethostbyname = one }

abbrev pub no_sdp : Bluez Kernel
no_sdp = record {
  str2ba = λ t. elim t [ [] ↦ none | c ∷ cs ↦ some c ];
  g_sess = λ k. none;
  set_g_sess = λ k q. k;
  sdp_connect = λ k. (k, none);
  sdp_device_record_register = λ k q r. (k, false);
  sdp_close = λ k q. k;
}

abbrev pub standard : Kernel
standard = record { open_fds = 2 ∷ 1 ∷ 0 ∷ []; bound = none }

abbrev pub host : List ℕ
host = b'h' ∷ []

small-ShowsBound : ShowsBound (small true) resolver no_sdp
small-ShowsBound = record {
  bind_shows = λ k k' s a port h e. ap (λ r. r.0.bound) (sym h);
  listen_keeps = λ k s n. refl;
}

-- A connection that is refused leaves nothing open.
netopts_connect-Balanced_example :
    Balanced
      (λ k. Kernel.open_fds k)
      standard
      ((pp_network_opts (small true) resolver).connect standard host 1)
unfolding pp_netopts_init
netopts_connect-Balanced_example =
    netopts_connect-Balanced (small true) (λ k. k.open_fds) (small-Tracks true) resolver no_sdp
      false inet (pp_network_opts (small true) resolver) standard host 1 refl

pp_listen-Balanced_example :
    Balanced
      (λ k. Kernel.open_fds k)
      standard
      (pp_listen (small true) resolver standard inet host 3030)
pp_listen-Balanced_example =
    pp_listen-Balanced (small true) (λ k. k.open_fds) (small-Tracks true) resolver no_sdp standard
      inet host 3030 (λ k s. refl)

unix-Rendezvous_example : Rendezvous (small true) resolver host host 6 6
unfolding pp_uxlisten pp_uxconnect
unix-Rendezvous_example =
    unix-Rendezvous (small true) resolver standard
      (record standard { open_fds = 6 ∷ standard.open_fds; bound = some (un (0 ∷ host)) }) standard
      (record standard { open_fds = 6 ∷ standard.open_fds }) local host host 0 0 6 6 refl refl

abbrev named_host : Surroundings
named_host = record {
  pcsc_server = some host;
  pcsc_port = some (b'1' ∷ []);
  pcsc_family = none;
  ttyname = λ n. none;
  utmp = [];
}

abbrev unused : Net Kernel
unused = record { kernel = standard; g_opts = none }

-- port 1 refuses
refused_there :
    connect_service (small true) resolver no_sdp false named_host unused
    ≡ done none
        (record { kernel = standard; g_opts = some (pp_network_opts (small true) resolver) })
unfolding connect_service service_place pp_netopts_init pp_network_opts pp_connect_by_ip
    host_address
refused_there = refl
