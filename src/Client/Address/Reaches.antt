-- ===== src/Client/Address/Reaches.antt =====
-- The connection that `pp_exchangeMsg` of src/client/client.c makes.
use pcsc_proxy_android.Prelude.{ℕ, ◌≡◌, Bool, Option, none, List}
use pcsc_proxy_android.Sockets.Calls.{Sys, Resolver, NetOpts}
use pcsc_proxy_android.Sockets.Bluetooth.{Bluez}
use pcsc_proxy_android.Sockets.Balance.{Balanced}
use pcsc_proxy_android.Client.State.{done}
use pcsc_proxy_android.Client.Address.{Surroundings, Place, place, Net, connect_service}
use pcsc_proxy_android.Client.Address.Directed.{Directed}

module _ {K : Type 0} (sys : Sys K) (dns : Resolver) (bz : Bluez K) (b : Bool) where
  -- what is tried at a place by the operations `o` from the kernel's state `k`
  abbrev pub attempt : NetOpts K → K → Place → K × Option ℕ
  attempt o k (place h p) = o.connect k h p
  attempt o k _ = (k, none)

  -- `connect_service` returns what the attempt at `p` gives, and opens the socket it returns, or none.
  pub record Reached (fds : K → List ℕ) (o : NetOpts K) (s : Surroundings) (n : Net K) (p : Place)
      : Type 0 where
    pub answer : Option ℕ
    pub after : Net K
    pub returns : connect_service sys dns bz b s n ≡ done answer after
    pub attempted : (after.kernel, answer) ≡ attempt o n.kernel p
    pub balanced : Balanced fds n.kernel (after.kernel, answer)
