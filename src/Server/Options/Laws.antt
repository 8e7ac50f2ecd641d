-- ===== src/Server/Options/Laws.antt =====
-- The options of the server (src/server/server.c), printed and read back, and what they add up to.
use pcsc_proxy_android.Prelude.{
  ℕ, ◌≡◌, refl, ◌∙◌, ap, Bool, true, false, ◌&&◌, if◌then◌else◌, Option, none, some, List, [], ◌∷◌,
  arith,
}
use pcsc_proxy_android.Sockets.Calls.{Family, in6, inet6, Sys, Resolver}
use pcsc_proxy_android.Sockets.Numbers.{atoi}
use pcsc_proxy_android.Sockets.Network.{listen_address}
use pcsc_proxy_android.Server.Options.{
  Opt, bind_address, family_name, port_text, unencrypted, pid_path, bad, Build, Settings, family_of,
  set_option, set_options, default_port, listen_port, minus_one,
}

abbrev dash : ℕ → List ℕ
dash c = b'-' ∷ c ∷ []

abbrev pub command_line : List Opt → List (List ℕ)
command_line [] = []
command_line (bind_address t ∷ os) = dash b'b' ∷ t ∷ command_line os
command_line (family_name t ∷ os) = dash b'f' ∷ t ∷ command_line os
command_line (port_text t ∷ os) = dash b'p' ∷ t ∷ command_line os
command_line (pid_path t ∷ os) = dash b'i' ∷ t ∷ command_line os
command_line (unencrypted ∷ os) = dash b'u' ∷ command_line os
command_line (bad ∷ os) = dash b'?' ∷ []

-- the options up to the first bad one
abbrev pub up_to_bad : List Opt → List Opt
up_to_bad [] = []
up_to_bad (bad ∷ os) = bad ∷ []
up_to_bad (o ∷ os) = o ∷ up_to_bad os

-- What an option says of each of the settings.
abbrev pub addr_given : Opt → Option (Option (List ℕ))
addr_given (bind_address t) = some (some t)
addr_given _ = none

abbrev pub family_given : Build → Opt → Option Family
family_given b (family_name t) = family_of b t
family_given b _ = none

abbrev pub port_given : Opt → Option ℕ
port_given (port_text t) = some (atoi t)
port_given _ = none

abbrev pub unenc_given : Opt → Option Bool
unenc_given unencrypted = some true
unenc_given _ = none

abbrev pub pid_given : Opt → Option (Option (List ℕ))
pid_given (pid_path t) = some (some t)
pid_given _ = none

abbrev is_some {ℓ} : {A : Type ℓ} → Option A → Bool
is_some none = false
is_some (some x) = true

-- An option that the build knows, with a family that it knows.
abbrev pub accepted : Build → Opt → Bool
accepted b (family_name t) = is_some (family_of b t)
accepted b unencrypted = b.enable_nullenc
accepted b bad = false
accepted b _ = true

abbrev pub all_accepted : Build → List Opt → Bool
all_accepted b [] = true
all_accepted b (o ∷ os) = accepted b o && all_accepted b os

module _ {A : Type 0} where
  abbrev pub over : Option A → A → A
  over none x = x
  over (some y) x = y

  -- the last of the options that says something
  abbrev pub last_given : (Opt → Option A) → List Opt → Option A
  last_given pick [] = none
  last_given pick (o ∷ os) = elim (last_given pick os) [ some y ↦ some y | none ↦ pick o ]

  over-last_given :
      (pick : Opt → Option A) (o : Opt) (os : List Opt) (x : A)
      → over (last_given pick os) (over (pick o) x) ≡ over (last_given pick (o ∷ os)) x
  over-last_given pick o os x = by_last (last_given pick os)
    where
      by_last :
          (l : Option A)
          → over l (over (pick o) x)
            ≡ over (elim l as (λ z. Option A) [ some y ↦ some y | none ↦ pick o ]) x
      by_last none = refl
      by_last (some y) = refl

-- each setting by the last option that gives it
abbrev pub chosen : Build → List Opt → Settings → Settings
chosen b os s = record {
  addr = over (last_given addr_given os) s.addr;
  family = over (last_given (family_given b) os) s.family;
  port = over (last_given port_given os) s.port;
  unenc = over (last_given unenc_given os) s.unenc;
  pid_file = over (last_given pid_given os) s.pid_file;
}

abbrev applied : Build → Opt → Settings → Settings
applied b o s = chosen b (o ∷ []) s

chosen-applied :
    (b : Build) (o : Opt) (os : List Opt) (s : Settings)
    → chosen b os (applied b o s) ≡ chosen b (o ∷ os) s
chosen-applied b o os s = λ i. record {
  addr = over-last_given addr_given o os s.addr i;
  family = over-last_given (family_given b) o os s.family i;
  port = over-last_given port_given o os s.port i;
  unenc = over-last_given unenc_given o os s.unenc i;
  pid_file = over-last_given pid_given o os s.pid_file i;
}

one_option :
    (b : Build) (o : Opt) (s : Settings)
    → set_option b o s ≡ (if accepted b o then some (applied b o s) else none)
unfolding set_option
one_option b (bind_address t) s = refl
one_option b (family_name t) s = ground arith
one_option b (port_text t) s = refl
one_option b unencrypted s = refl
one_option b (pid_path p) s = refl
one_option b bad s = refl

one_then :
    (b : Build) (os : List Opt) (a : Bool) (r : Option Settings) (s u : Settings)
    → r ≡ (if a then some s else none)
    → set_options b os s ≡ (if all_accepted b os then some (chosen b os s) else none)
    → chosen b os s ≡ u
    → elim r as (λ z. Option Settings) [ none ↦ none | some s' ↦ set_options b os s' ]
      ≡ (if a && all_accepted b os then some u else none)
one_then b os true r s u e ih f =
    ap (λ z. elim z as (λ y. Option Settings) [ none ↦ none | some s' ↦ set_options b os s' ]) e
    ∙ ih
    ∙ ap (λ c. if all_accepted b os then some c else none) f
one_then b os false r s u e ih f =
    ap (λ z. elim z as (λ y. Option Settings) [ none ↦ none | some s' ↦ set_options b os s' ]) e

-- The option loop of `main` is the rule: it goes through exactly if the build knows every option
-- and every family given, whatever the order, and then each setting is what the last option that
-- gives it says, or what it was before.
pub set_options-chosen :
    (b : Build) (os : List Opt) (s : Settings)
    → set_options b os s ≡ (if all_accepted b os then some (chosen b os s) else none)
unfolding set_options
set_options-chosen b [] s = refl
set_options-chosen b (o ∷ os) s =
    one_then b os (accepted b o) (set_option b o s) (applied b o s) (chosen b (o ∷ os) s)
      (one_option b o s) (set_options-chosen b os (applied b o s)) (chosen-applied b o os s)

module _ {K : Type 0} (sys : Sys K) (dns : Resolver) where
  -- Of a server for IPv6 that is started without a port, `main` leaves the port -1: it listens on port
  -- 65535, whatever the address.
  pub listen_port-inet6 :
      (b : Build) (s : Settings) (addr : List ℕ) (a : ℕ)
      → s.family ≡ inet6
      → s.port ≡ minus_one
      → dns.inet_pton addr ≡ some a
      → listen_address sys dns s.family addr (listen_port b s) ≡ some (in6 a 65535)
  unfolding listen_address listen_port default_port
  listen_port-inet6 b s addr a f p h = ground arith
