-- ===== src/Client/Address.antt =====
-- The choice of the service's address in `pp_exchangeMsg` of src/client/client.c: the environment or,
-- without it, the host that the user of the controlling terminal is logged in from.
pub mod Directed
pub mod Reaches
use pcsc_proxy_android.Prelude.{
  ℕ, ◌≡◌, Bool, true, false, ◌&&◌, not, if◌then◌else◌, ◌==◌, Option, none, some, List, [], ◌∷◌, map,
  length, take, drop, ltb,
}
use pcsc_proxy_android.Sockets.Calls.{Family, inet, inet6, local, bluetooth, Sys, Resolver, NetOpts}
use pcsc_proxy_android.Sockets.Numbers.{atoi}
use pcsc_proxy_android.Sockets.Network.{pp_tcp_port}
use pcsc_proxy_android.Sockets.Bluetooth.{Bluez}
use pcsc_proxy_android.Sockets.Choice.{pp_netopts_init}
use pcsc_proxy_android.Client.State.{Result, done, undefined}
use pcsc_proxy_android.Client.Tables.{lower, same_text, is_blank, text_of}
use pcsc_proxy_android.Client.Exchange.{Network}

-- an entry of utmp, as `getutent` returns it
pub record Login : Type 0 where
  pub user_process : Bool
  pub line : List ℕ
  pub host : List ℕ

-- `getenv` of `PCSC_SERVER`, `PCSC_PORT` and `PCSC_FAMILY`, `ttyname`, and the entries of utmp
pub record Surroundings : Type 0 where
  pub pcsc_server : Option (List ℕ)
  pub pcsc_port : Option (List ℕ)
  pub pcsc_family : Option (List ℕ)
  pub ttyname : ℕ → Option (List ℕ)
  pub utmp : List Login

abbrev pub first_of {ℓ} : {A : Type ℓ} → Option A → Option A → Option A
first_of none o = o
first_of (some a) o = some a

-- the name of the terminal of descriptor 0, 1 or 2
abbrev pub tty_name : Surroundings → Option (List ℕ)
tty_name s = first_of (s.ttyname 0) (first_of (s.ttyname 1) (s.ttyname 2))

-- `strncpy` into an array of 256 bytes, the last of which is set to 0
abbrev pub copied_name : List ℕ → List ℕ
copied_name t = take 255 t

-- Of a name of at most four bytes nothing is copied: the array `terminal` is then not initialized.
abbrev pub terminal_of : List ℕ → Option (List ℕ)
terminal_of t = if ltb 4 (length t) then some (copied_name (drop 5 t)) else none

abbrev pub is_login : List ℕ → Login → Bool
is_login terminal u =
    u.user_process && (not (is_blank (some u.line)) && same_text u.line (map lower terminal))

-- the loop over `getutent`
unfoldable pub find_login : List ℕ → List Login → Option Login
find_login terminal [] = none
find_login terminal (u ∷ us) =
    let rest = find_login terminal us in if is_login terminal u then some u else rest

-- `hostname` and `port`, a failure, or the value of an array that is not initialized
pub data Place : Type 0 where
  place : (host : List ℕ) → (port : ℕ) → Place
  nowhere unknowable : Place

-- where the environment does not name a server
unfoldable pub login_place : Surroundings → Place
unfolding find_login
login_place s = elim (tty_name s) [
  | none ↦ nowhere
  | some t ↦ elim (terminal_of t) [
    | none ↦ unknowable
    | some terminal ↦ elim (find_login terminal s.utmp) [
      | none ↦ nowhere
      | some u ↦ if is_blank (some u.host) then nowhere else place (copied_name u.host) pp_tcp_port
    ]
  ]
]

abbrev pub env_port : Option (List ℕ) → ℕ
env_port p = if is_blank p then pp_tcp_port else atoi (text_of p)

unfoldable pub service_place : Surroundings → Place
unfolding login_place
service_place s =
    if is_blank s.pcsc_server
    then login_place s
    else place (copied_name (text_of s.pcsc_server)) (env_port s.pcsc_port)

-- of another family the code only logs the name, and goes on with `AF_INET`
abbrev pub env_family : Option (List ℕ) → Family
env_family none = inet
env_family (some []) = inet
env_family (some (c ∷ cs)) =
    if c == b'4'
    then inet
    else if c == b'6'
    then inet6
    else if c == b'b'
    then bluetooth
    else if c == b'u'
    then local
    else inet

-- The kernel, and the global variable `g_opts`.
pub record Net (K : Type 0) : Type 0 where
  pub kernel : K
  pub g_opts : Option (NetOpts K)

module _ {K : Type 0} (sys : Sys K) (dns : Resolver) (bz : Bluez K) (use_bluetooth : Bool)
    (s : Surroundings) where
  -- The result of `pp_netopts_init` is not looked at: where it fails, `g_opts` is what it was before.
  abbrev pub opts_for : Net K → Option (NetOpts K)
  opts_for n =
      first_of (pp_netopts_init sys dns bz use_bluetooth (env_family s.pcsc_family)) n.g_opts

  unfoldable pub connect_service : Net K → Result (Net K) (Option ℕ)
  unfolding service_place
  connect_service n = elim (service_place s) [
    | nowhere ↦ done none n
    | unknowable ↦ undefined
    | place host port ↦ elim (opts_for n) [
      | none ↦ undefined
      | some o ↦
          let (k, r) = NetOpts.connect o n.kernel host port in
          done r (record { kernel = k; g_opts = some o })
    ]
  ]

  -- what `pp_exchangeMsg` uses
  unfoldable pub service_network : Network (Net K)
  unfolding connect_service
  service_network = record {
    connect = connect_service;
    close = λ n sock. record n { kernel = sys.close n.kernel sock };
  }
