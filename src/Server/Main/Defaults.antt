-- ===== src/Server/Main/Defaults.antt =====
-- Where and how a server (`main` of src/server/server.c) is to listen, by its settings.
use mathlib.Core.Path.{subst}
use pcsc_proxy_android.Prelude.{
  ℕ, ◌≡◌, ◌≢◌, refl, Bool, true, false, Option, none, some, List, [], ◌∷◌, arith,
}
use pcsc_proxy_android.Client.State.{Tls, nullenc, openssl}
use pcsc_proxy_android.Sockets.Calls.{Family, unknown, Sys, Resolver, NetOpts}
use pcsc_proxy_android.Sockets.Bluetooth.{Bluez}
use pcsc_proxy_android.Sockets.Choice.{OperationsOf}
use pcsc_proxy_android.Server.Pcsc.{Pcsc}
use pcsc_proxy_android.Server.Options.{
  Build, Settings, default_addr, listen_addr, default_port, listen_port,
}
use pcsc_proxy_android.Server.Child.{Process, ServerTls}
use pcsc_proxy_android.Server.Main.{server_tls, main_opts}

-- Where the server is to listen, by what the command line says and by the family. A family without a default has none.
abbrev pub AddressOf : (given : Option (List ℕ)) → Family → List ℕ → Type 0
AddressOf (some t) f a = a ≡ t
AddressOf none Family.inet a = a ≡ b'0' ∷ b'.' ∷ b'0' ∷ b'.' ∷ b'0' ∷ b'.' ∷ b'0' ∷ []
AddressOf none Family.inet6 a = a ≡ b':' ∷ b':' ∷ []
AddressOf none Family.bluetooth a =
    a
    ≡ b'0' ∷ b'0' ∷ b':' ∷ b'0' ∷ b'0' ∷ b':' ∷ b'0' ∷ b'0' ∷ b':' ∷ b'0' ∷ b'0' ∷ b':' ∷ b'0'
      ∷ b'0' ∷ b':' ∷ b'0' ∷ b'0' ∷ []
AddressOf none f a = ⊥

-- 3030 for IPv4, any channel for Bluetooth, and -1 for the others
abbrev pub StandardPort : Family → ℕ → Type 0
StandardPort Family.inet q = q ≡ 3030
StandardPort Family.bluetooth q = q ≡ 0
StandardPort f q = q ≡ 0xffffffff

abbrev pub PortOf : (given : ℕ) → Family → ℕ → Type 0
PortOf n f q = (n ≢ 0xffffffff → q ≡ n) × (n ≡ 0xffffffff → StandardPort f q)

abbrev pub EncryptionOf : (unenc : Bool) → Tls → Type 0
EncryptionOf true g = g ≡ nullenc
EncryptionOf false g = g ≡ openssl

module _ {K P : Type 0} (sys : Sys K) (dns : Resolver) (bz : Bluez K) (proc : Process K)
    (tls : Tls → ServerTls K) (lib : Pcsc P) (b : Build) where
  pub main_opts-OperationsOf :
      (f : Family) (o : NetOpts K)
      → main_opts sys dns bz proc tls lib b f ≡ some o
      → OperationsOf sys dns bz f o
  unfolding main_opts
  main_opts-OperationsOf Family.inet o h = cc
  main_opts-OperationsOf Family.inet6 o h = cc
  main_opts-OperationsOf Family.local o h = cc
  main_opts-OperationsOf Family.bluetooth o h = ground arith
  main_opts-OperationsOf (unknown m) o h = cc

  default_port-StandardPort :
      (f : Family) (o : NetOpts K)
      → main_opts sys dns bz proc tls lib b f ≡ some o
      → StandardPort f (default_port b f)
  unfolding main_opts default_port
  default_port-StandardPort Family.inet o h = refl
  default_port-StandardPort Family.inet6 o h = refl
  default_port-StandardPort Family.local o h = refl
  default_port-StandardPort Family.bluetooth o h = ground arith
  default_port-StandardPort (unknown m) o h = refl

  pub listen_port-PortOf :
      (s : Settings) (o : NetOpts K)
      → main_opts sys dns bz proc tls lib b s.family ≡ some o
      → PortOf s.port s.family (listen_port b s)
  unfolding listen_port
  listen_port-PortOf s o h = (
    λ e. ground arith,
    λ e.
        subst (StandardPort s.family)
          (let same : default_port b s.family ≡ listen_port b s = ground arith in same)
          (default_port-StandardPort s.family o h),
  )

  address-AddressOf :
      (t : Option (List ℕ)) (f : Family) (a : List ℕ)
      → elim t as (λ z. Option (List ℕ)) [ some x ↦ some x | none ↦ default_addr b f ] ≡ some a
      → AddressOf t f a
  unfolding default_addr
  address-AddressOf (some t) f a h = cc
  address-AddressOf none Family.inet a h = cc
  address-AddressOf none Family.inet6 a h = cc
  address-AddressOf none Family.local a h = cc
  address-AddressOf none Family.bluetooth a h = ground arith
  address-AddressOf none (unknown m) a h = cc

  pub listen_addr-AddressOf :
      (s : Settings) (a : List ℕ) → listen_addr b s ≡ some a → AddressOf s.addr s.family a
  unfolding listen_addr
  listen_addr-AddressOf s a h = address-AddressOf s.addr s.family a h

  pub server_tls-EncryptionOf : (u : Bool) (g : Tls) → server_tls b u ≡ some g → EncryptionOf u g
  unfolding server_tls
  server_tls-EncryptionOf true g h = ground arith
  server_tls-EncryptionOf false g h = ground arith
