-- ===== src/Client/Address/Directed/Laws.antt =====
-- The choice of the address in `pp_exchangeMsg` (src/client/client.c) is the one described.
use pcsc_proxy_android.Prelude.{
  ℕ, zero, suc, ◌+◌, ◌*◌, ◌-◌, ◌<◌, ◌≡◌, ◌≢◌, ◌⊎◌, inl, inr, refl, ap, ◌∙◌, true, false, Bool-cases,
  Option, none, some, List, [], ◌∷◌, ◌++◌, map, length, take, drop, if◌then◌else◌, arith, lt→ltb,
  length-append,
}
use pcsc_proxy_android.Sockets.Calls.{Family}
use pcsc_proxy_android.Sockets.Numbers.{digits}
use pcsc_proxy_android.Sockets.Network.{pp_tcp_port}
use pcsc_proxy_android.Client.Tables.{is_blank, lower, same_text}
use pcsc_proxy_android.Client.Address.{
  Login, Surroundings, is_login, find_login, Place, place, nowhere, unknowable, copied_name,
  tty_name, terminal_of, login_place, env_port, service_place, env_family,
}
use pcsc_proxy_android.Client.Address.Directed.{
  FamilySays, unset, empty, four, six, blue, unix, other, decimal_value, AllDigits, PortSays,
  number, letter, LoggedIn, AllElsewhere, LoginLeads, from_host, from_here, not_there, Directed,
  to_server, to_login, no_terminal,
}

pub env_family-FamilySays : {t : Option (List ℕ)} {f : Family} → FamilySays t f → env_family t ≡ f
env_family-FamilySays unset = refl
env_family-FamilySays empty = refl
env_family-FamilySays (four cs) = refl
env_family-FamilySays (six cs) = refl
env_family-FamilySays (blue cs) = refl
env_family-FamilySays (unix cs) = refl
env_family-FamilySays (other c cs a b d e) = ground arith

digits-value :
    (n : ℕ) (ds : List ℕ) → AllDigits ds → digits n (map (◌+◌ b'0') ds) ≡ decimal_value n ds
digits-value n [] h = refl
digits-value n (d ∷ ds) h =
    let ih = digits-value (10 * n + d) ds h.1 in
    let same : 10 * n + (48 + d - 48) ≡ 10 * n + d = omega arith in ground (arith, ih, same, h.0)

pub env_port-PortSays : {t : Option (List ℕ)} {q : ℕ} → PortSays t q → env_port t ≡ q
env_port-PortSays unset = refl
env_port-PortSays empty = refl
env_port-PortSays (number d ds h k) =
    let ih = digits-value d ds k in
    let same : 0 + (48 + d - 48) ≡ d = omega arith in ground (arith, ih, same)
env_port-PortSays (letter c cs h) = ground arith

is_login-LoggedIn : (t : List ℕ) (u : Login) → LoggedIn t u → is_login (take 255 t) u ≡ true
is_login-LoggedIn t u h = by_line u.line h.user h.lined h.there
  where
    by_line :
        (l : List ℕ)
        → u.user_process ≡ true
        → l ≢ []
        → same_text l (map lower (take 255 t)) ≡ true
        → is_login (take 255 t) (record u { line = l }) ≡ true
    by_line [] a b c = absurd (b refl)
    by_line (x ∷ xs) a b c = ground (arith, a, c)

is_login_sound : (t : List ℕ) (u : Login) → is_login (take 255 t) u ≡ true → LoggedIn t u
is_login_sound t u e = record {
  user = ground arith;
  lined = λ z. ground (arith, z);
  there = ground arith;
}

is_login-NotLoggedIn : (t : List ℕ) (u : Login) → ¬ (LoggedIn t u) → is_login (take 255 t) u ≡ false
is_login-NotLoggedIn t u h = elim (Bool-cases (is_login (take 255 t) u)) [
  | inl e ↦ absurd (h (is_login_sound t u e))
  | inr e ↦ e
]

find_login-first :
    (t : List ℕ) (before after : List Login) (u : Login)
    → AllElsewhere t before
    → LoggedIn t u
    → find_login (take 255 t) (before ++ (u ∷ after)) ≡ some u
unfolding find_login
find_login-first t [] after u n y = rw (is_login-LoggedIn t u y) refl
find_login-first t (v ∷ vs) after u n y =
    rw (is_login-NotLoggedIn t v n.0) (find_login-first t vs after u n.1 y)

find_login-none :
    (t : List ℕ) (us : List Login) → AllElsewhere t us → find_login (take 255 t) us ≡ none
unfolding find_login
find_login-none t [] n = refl
find_login-none t (v ∷ vs) n = rw (is_login-NotLoggedIn t v n.0) (find_login-none t vs n.1)

tty_name-first :
    (s : Surroundings) (d : ℕ) (x : List ℕ)
    → d < 3
    → ((i : ℕ) → i < d → s.ttyname i ≡ none)
    → s.ttyname d ≡ some x
    → tty_name s ≡ some x
tty_name-first s zero x l n e = rw e refl
tty_name-first s (suc zero) x l n e = rw (n 0 (omega arith), e) refl
tty_name-first s (suc (suc zero)) x l n e = rw (n 0 (omega arith), n 1 (omega arith), e) refl
tty_name-first s (suc (suc (suc d))) x l n e = absurd (omega arith)

drop-append : (xs ys : List ℕ) (n : ℕ) → length xs ≡ n → drop n (xs ++ ys) ≡ ys
drop-append [] ys zero e = refl
drop-append [] ys (suc n) e = absurd (omega arith)
drop-append (x ∷ xs) ys zero e = absurd (omega arith)
drop-append (x ∷ xs) ys (suc n) e = drop-append xs ys n (omega arith)

terminal_of-append : (dev t : List ℕ) → length dev ≡ 5 → terminal_of (dev ++ t) ≡ some (take 255 t)
terminal_of-append dev t e =
    rw (lt→ltb 4 (length (dev ++ t)) (omega (arith, length-append dev t)))
      (ap (λ l. some (take 255 l)) (drop-append dev t 5 e))

text_blank :
    (h : List ℕ) (p : Place)
    → h ≡ []
    → ◌≡◌ {A = Place} (if is_blank (some h) then nowhere else p) nowhere
text_blank [] p e = refl
text_blank (x ∷ xs) p e = cc

text_there :
    (h : List ℕ) (p q : Place) → h ≢ [] → ◌≡◌ {A = Place} (if is_blank (some h) then p else q) q
text_there [] p q e = absurd (e refl)
text_there (x ∷ xs) p q e = refl

no_server :
    (o : Option (List ℕ)) (p q : Place)
    → (o ≡ none) ⊎ (o ≡ some [])
    → ◌≡◌ {A = Place} (if is_blank o then p else q) p
no_server none p q b = refl
no_server (some []) p q b = refl
no_server (some (x ∷ xs)) p q (inl e) = cc
no_server (some (x ∷ xs)) p q (inr e) = cc

tty_name-none : (s : Surroundings) → ((i : ℕ) → i < 3 → s.ttyname i ≡ none) → tty_name s ≡ none
tty_name-none s n = rw (n 0 (omega arith), n 1 (omega arith), n 2 (omega arith)) refl

unfoldable found_login : Option Login → Place
found_login none = nowhere
found_login (some u) = if is_blank (some u.host) then nowhere else place (take 255 u.host) 3030

-- with the terminal's name at hand
login_place-found :
    (s : Surroundings) (dev t : List ℕ)
    → tty_name s ≡ some (dev ++ t)
    → length dev ≡ 5
    → login_place s ≡ found_login (find_login (take 255 t) s.utmp)
unfolding login_place found_login
login_place-found s dev t e l =
    ap
      (λ o. elim o as (λ z. Place) [
        | none ↦ nowhere
        | some x ↦ elim (terminal_of x) [
          | none ↦ unknowable
          | some terminal ↦ elim (find_login terminal s.utmp) [
            | none ↦ nowhere
            | some u ↦
                if is_blank (some u.host) then nowhere else place (copied_name u.host) pp_tcp_port
          ]
        ]
      ])
      e
    ∙ ap
        (λ o. elim o as (λ z. Place) [
          | none ↦ unknowable
          | some terminal ↦ found_login (find_login terminal s.utmp)
        ])
        (terminal_of-append dev t l)

at_login :
    (s : Surroundings) (t : List ℕ) (p : Place)
    → LoginLeads t s.utmp p
    → found_login (find_login (take 255 t) s.utmp) ≡ p
unfolding found_login
at_login s t p (from_host before after u f n y h) =
    ap (λ l. found_login (find_login (take 255 t) l)) f
    ∙ ap found_login (find_login-first t before after u n y)
    ∙ text_there u.host _ _ h
at_login s t p (from_here before after u f n y h) =
    ap (λ l. found_login (find_login (take 255 t) l)) f
    ∙ ap found_login (find_login-first t before after u n y)
    ∙ text_blank u.host _ h
at_login s t p (not_there n) = ap found_login (find_login-none t s.utmp n)

login_place-none : (s : Surroundings) → tty_name s ≡ none → login_place s ≡ nowhere
unfolding login_place
login_place-none s e =
    ap
      (λ (o : Option (List ℕ)). elim o as (λ z. Place) [
        | none ↦ nowhere
        | some x ↦ elim (terminal_of x) [
          | none ↦ unknowable
          | some terminal ↦ elim (find_login terminal s.utmp) [
            | none ↦ nowhere
            | some u ↦
                if is_blank (some u.host) then nowhere else place (copied_name u.host) pp_tcp_port
          ]
        ]
      ])
      e

-- The choice of the code is the one described.
pub service_place-Directed : (s : Surroundings) (p : Place) → Directed s p → service_place s ≡ p
unfolding service_place
service_place-Directed s p (to_server h q e n k) = rw (e, env_port-PortSays k) (text_there h _ _ n)
service_place-Directed s p (to_login d dev t _ b l n e f k) =
    no_server s.pcsc_server _ _ b
    ∙ login_place-found s dev t (tty_name-first s d (dev ++ t) l n e) f
    ∙ at_login s t p k
service_place-Directed s p (no_terminal b n) =
    no_server s.pcsc_server _ _ b ∙ login_place-none s (tty_name-none s n)
