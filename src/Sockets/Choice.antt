-- ===== src/Sockets/Choice.antt =====
-- src/common/netopts.c: the operations that belong to an address family.
use pcsc_proxy_android.Prelude.{◌≡◌, refl, sym, ap, Bool, true, if◌then◌else◌, Option, none, some}
use pcsc_proxy_android.Sockets.Calls.{Family, bluetooth, unknown, Sys, Resolver, NetOpts}
use pcsc_proxy_android.Sockets.Network.{pp_network_opts}
use pcsc_proxy_android.Sockets.Unix.{pp_unix_opts}
use pcsc_proxy_android.Sockets.Bluetooth.{Bluez, pp_bluetooth_opts}

module _ {K : Type 0} (sys : Sys K) (dns : Resolver) (bz : Bluez K) where
  -- `use_bluetooth` is the build's `USE_BLUETOOTH`; `none` is -1.
  unfoldable pub pp_netopts_init : (use_bluetooth : Bool) → Family → Option (NetOpts K)
  pp_netopts_init b Family.inet = some (pp_network_opts sys dns)
  pp_netopts_init b Family.inet6 = some (pp_network_opts sys dns)
  pp_netopts_init b Family.bluetooth = if b then some (pp_bluetooth_opts sys dns bz) else none
  pp_netopts_init b Family.local = some (pp_unix_opts sys dns)
  pp_netopts_init b (unknown n) = none

  -- The operations of a family, described on their own: an unknown family has none.
  abbrev pub OperationsOf : Family → NetOpts K → Type 0
  OperationsOf Family.inet o = o ≡ pp_network_opts sys dns
  OperationsOf Family.inet6 o = o ≡ pp_network_opts sys dns
  OperationsOf Family.local o = o ≡ pp_unix_opts sys dns
  OperationsOf Family.bluetooth o = o ≡ pp_bluetooth_opts sys dns bz
  OperationsOf (unknown n) o = ⊥

  pub netopts_init-OperationsOf :
      (b : Bool) (f : Family) (o : NetOpts K)
      → (f ≡ bluetooth → b ≡ true)
      → OperationsOf f o
      → pp_netopts_init b f ≡ some o
  unfolding pp_netopts_init
  netopts_init-OperationsOf b Family.inet o h e = ap some (sym e)
  netopts_init-OperationsOf b Family.inet6 o h e = ap some (sym e)
  netopts_init-OperationsOf b Family.local o h e = ap some (sym e)
  netopts_init-OperationsOf b Family.bluetooth o h e = rw (h refl) (ap some (sym e))
  netopts_init-OperationsOf b (unknown n) o h e = absurd e
