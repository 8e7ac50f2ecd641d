-- ===== src/Client/Address/Directed.antt =====
-- Where the environment sends the client (`pp_exchangeMsg` of src/client/client.c), described on its own.
pub mod Laws
use pcsc_proxy_android.Prelude.{
  ℕ, ◌+◌, ◌*◌, ◌%◌, ◌<◌, ◌≡◌, ◌≢◌, ◌⊎◌, true, Option, none, some, List, [], ◌∷◌, ◌++◌, map, length,
  take,
}
use pcsc_proxy_android.Sockets.Calls.{Family, inet, inet6, local, bluetooth}
use pcsc_proxy_android.Client.Tables.{lower, same_text}
use pcsc_proxy_android.Client.Address.{Login, Surroundings, Place, place, nowhere}

-- what `PCSC_FAMILY` says, by its first character
pub data FamilySays : Option (List ℕ) → Family → Type 0 where
  unset : FamilySays none inet
  empty : FamilySays (some []) inet
  four : (cs : List ℕ) → FamilySays (some (b'4' ∷ cs)) inet
  six : (cs : List ℕ) → FamilySays (some (b'6' ∷ cs)) inet6
  blue : (cs : List ℕ) → FamilySays (some (b'b' ∷ cs)) bluetooth
  unix : (cs : List ℕ) → FamilySays (some (b'u' ∷ cs)) local
  other :
      (c : ℕ) (cs : List ℕ)
      → c ≢ b'4'
      → c ≢ b'6'
      → c ≢ b'b'
      → c ≢ b'u'
      → FamilySays (some (c ∷ cs)) inet

-- The number that decimal digits stand for, behind the digits of `n`.
abbrev pub decimal_value : ℕ → List ℕ → ℕ
decimal_value n [] = n
decimal_value n (d ∷ ds) = decimal_value (10 * n + d) ds

abbrev pub AllDigits : List ℕ → Type 0
AllDigits [] = Unit
AllDigits (d ∷ ds) = (d < 10) × AllDigits ds

-- What `PCSC_PORT` says: 3030 if it is not there or empty, a number, or a text that starts otherwise.
pub data PortSays : Option (List ℕ) → ℕ → Type 0 where
  unset : PortSays none 3030
  empty : PortSays (some []) 3030
  number :
      (d : ℕ) (ds : List ℕ)
      → d < 10
      → AllDigits ds
      → PortSays (some (map (◌+◌ b'0') (d ∷ ds))) (decimal_value d ds % 0x100000000)
  letter : (c : ℕ) (cs : List ℕ) → b'9' < c → PortSays (some (c ∷ cs)) 0

-- A user who is logged in at the terminal `t`.
pub record LoggedIn (t : List ℕ) (u : Login) : Type 0 where
  pub user : u.user_process ≡ true
  pub lined : u.line ≢ []
  pub there : same_text u.line (map lower (take 255 t)) ≡ true

abbrev pub AllElsewhere : List ℕ → List Login → Type 0
AllElsewhere t [] = Unit
AllElsewhere t (u ∷ us) = ¬ (LoggedIn t u) × AllElsewhere t us

-- Where a client without `PCSC_SERVER` goes, from a terminal of the name `t`.
pub data LoginLeads (t : List ℕ) (utmp : List Login) : Place → Type 0 where
  from_host :
      (before after : List Login) (u : Login)
      → utmp ≡ before ++ (u ∷ after)
      → AllElsewhere t before
      → LoggedIn t u
      → u.host ≢ []
      → LoginLeads t utmp (place (take 255 u.host) 3030)
  from_here :
      (before after : List Login) (u : Login)
      → utmp ≡ before ++ (u ∷ after)
      → AllElsewhere t before
      → LoggedIn t u
      → u.host ≡ []
      → LoginLeads t utmp nowhere
  not_there : AllElsewhere t utmp → LoginLeads t utmp nowhere

-- Where the client goes: to the server that the environment names, or to where the login at its
-- terminal, the first of the standard descriptors that has one, comes from. The first five
-- characters of the terminal's name ("/dev/") do not count.
pub data Directed (s : Surroundings) : Place → Type 0 where
  to_server :
      (h : List ℕ) (q : ℕ)
      → s.pcsc_server ≡ some h
      → h ≢ []
      → PortSays s.pcsc_port q
      → Directed s (place (take 255 h) q)
  to_login :
      (d : ℕ) (dev t : List ℕ) (p : Place)
      → (s.pcsc_server ≡ none) ⊎ (s.pcsc_server ≡ some [])
      → d < 3
      → ((i : ℕ) → i < d → s.ttyname i ≡ none)
      → s.ttyname d ≡ some (dev ++ t)
      → length dev ≡ 5
      → LoginLeads t s.utmp p
      → Directed s p
  no_terminal :
      (s.pcsc_server ≡ none) ⊎ (s.pcsc_server ≡ some [])
      → ((i : ℕ) → i < 3 → s.ttyname i ≡ none)
      → Directed s nowhere
