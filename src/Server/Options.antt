-- ===== src/Server/Options.antt =====
-- The options of the server: `getopt`, and the part of `main` of src/server/server.c up to the
-- choice of the port.
pub mod Laws
use pcsc_proxy_android.Prelude.{
  ℕ, ◌≡◌, Bool, true, false, Option, none, some, List, [], ◌∷◌, ◌==◌, if◌then◌else◌,
}
use pcsc_proxy_android.Sockets.Calls.{Family, inet, inet6, local, bluetooth, unknown}
use pcsc_proxy_android.Sockets.Numbers.{atoi}
use pcsc_proxy_android.Sockets.Network.{pp_tcp_port}

-- What one call of `getopt(argc, argv, "b:f:p:ui:")` returns, with `optarg`; `bad` is '?'.
pub data Opt : Type 0 where
  bind_address family_name port_text pid_path : List ℕ → Opt
  unencrypted bad : Opt

-- the options that take an argument
abbrev with_argument : ℕ → Option (List ℕ → Opt)
with_argument c =
    if c == b'b'
    then some bind_address
    else if c == b'f'
    then some family_name
    else if c == b'p'
    then some port_text
    else if c == b'i'
    then some pid_path
    else none

-- The letters of one word. `v` is the word that follows, `after` the options of all that follows,
-- and `later` those of what follows `v`.
abbrev letters : List ℕ → Option (List ℕ) → (after later : List Opt) → List Opt
letters [] v after later = after
letters (c ∷ cs) v after later = elim (with_argument c) [
  | none ↦ if c == b'u' then unencrypted ∷ letters cs v after later else bad ∷ []
  | some o ↦ elim cs [
    | d ∷ ds ↦ o (d ∷ ds) ∷ after
    | [] ↦ elim v [ none ↦ bad ∷ [] | some t ↦ o t ∷ later ]
  ]
]

-- A word that is no option is passed over, as the GNU and BSD libraries do; `--` ends the options.
abbrev word : List ℕ → Option (List ℕ) → (after later : List Opt) → List Opt
word [] v after later = after
word (c ∷ []) v after later = after
word (c ∷ d ∷ ds) v after later =
    if c == b'-'
    then elim ds [
      | [] ↦ if d == b'-' then [] else letters (d ∷ []) v after later
      | e ∷ es ↦ letters (d ∷ e ∷ es) v after later
    ]
    else after

-- All that `getopt` returns for the words after the program's name. Up to a `bad` one, at which
-- `main` leaves.
unfoldable pub getopt : List (List ℕ) → List Opt
getopt [] = []
getopt (a ∷ []) = word a none [] []
getopt (a ∷ v ∷ rest) = word a (some v) (getopt (v ∷ rest)) (getopt rest)

-- What the build decides. `HAVE_IPV6` is always defined in server.c.
pub record Build : Type 0 where
  pub use_bluetooth : Bool
  pub enable_nullenc : Bool
  pub use_openssl : Bool

-- The local variables of `main` that the options set. `port` is an `int`; `none` is NULL.
pub record Settings : Type 0 where
  pub addr : Option (List ℕ)
  pub family : Family
  pub port : ℕ
  pub unenc : Bool
  pub pid_file : Option (List ℕ)

abbrev pub minus_one : ℕ
minus_one = 0xffffffff

abbrev pub initial : Settings
initial = record { addr = none; family = inet; port = minus_one; unenc = false; pid_file = none }

-- `switch (optarg[0])`
unfoldable pub family_of : Build → List ℕ → Option Family
family_of b [] = none
family_of b (c ∷ cs) =
    if (c == b'b')
    then if b.use_bluetooth then some bluetooth else none
    else if c == b'4'
    then some inet
    else if c == b'6'
    then some inet6
    else if c == b'u'
    then some local
    else none

-- One round of the option loop; `none` is `exit(-1)`.
unfoldable pub set_option : Build → Opt → Settings → Option Settings
unfolding family_of
set_option b (bind_address a) s = some (record s { addr = some a })
set_option b (family_name t) s = elim (family_of b t) [
  | none ↦ none
  | some f ↦ some (record s { family = f })
]
set_option b (port_text t) s = some (record s { port = atoi t })
set_option b unencrypted s = if b.enable_nullenc then some (record s { unenc = true }) else none
set_option b (pid_path p) s = some (record s { pid_file = some p })
set_option b bad s = none

unfoldable pub set_options : Build → List Opt → Settings → Option Settings
unfolding set_option
set_options b [] s = some s
set_options b (o ∷ os) s = elim (set_option b o s) [ none ↦ none | some s' ↦ set_options b os s' ]

-- the address where none is given
unfoldable pub default_addr : Build → Family → Option (List ℕ)
default_addr b Family.inet = some (b'0' ∷ b'.' ∷ b'0' ∷ b'.' ∷ b'0' ∷ b'.' ∷ b'0' ∷ [])
default_addr b Family.inet6 = some (b':' ∷ b':' ∷ [])
default_addr b Family.bluetooth =
    if b.use_bluetooth
    then some (
        b'0' ∷ b'0' ∷ b':' ∷ b'0' ∷ b'0' ∷ b':' ∷ b'0' ∷ b'0' ∷ b':' ∷ b'0' ∷ b'0' ∷ b':' ∷ b'0'
        ∷ b'0' ∷ b':' ∷ b'0' ∷ b'0' ∷ [])
    else none
default_addr b Family.local = none
default_addr b (unknown n) = none

unfoldable pub listen_addr : Build → Settings → Option (List ℕ)
unfolding default_addr
listen_addr b s = elim s.addr [ some a ↦ some a | none ↦ default_addr b s.family ]

-- the port in place of -1: there is none for IPv6
unfoldable pub default_port : Build → Family → ℕ
default_port b Family.inet = pp_tcp_port
default_port b Family.bluetooth = if b.use_bluetooth then 0 else minus_one
default_port b f = minus_one

unfoldable pub listen_port : Build → Settings → ℕ
unfolding default_port
listen_port b s = if s.port == minus_one then default_port b s.family else s.port
