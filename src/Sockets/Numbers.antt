-- ===== src/Sockets/Numbers.antt =====
-- The C library's `atoi`, which src/server/server.c and src/client/client.c call. An `int` is a
-- number below 2 ^ 32, in two's complement; a number too large for one is taken modulo 2 ^ 32.
use pcsc_proxy_android.Prelude.{
  ℕ, ◌+◌, ◌-◌, ◌*◌, ◌%◌, ◌&&◌, ◌||◌, Bool, List, [], ◌∷◌, ◌==◌, leb, if◌then◌else◌,
}

abbrev is_space : ℕ → Bool
is_space c = (c == 32) || (leb 9 c && leb c 13)

abbrev is_digit : ℕ → Bool
is_digit c = leb 48 c && leb c 57

-- the digits at the start of a text, after digits of the value `n`
abbrev pub digits : ℕ → List ℕ → ℕ
digits n [] = n
digits n (c ∷ cs) = let rest = digits (10 * n + (c - 48)) cs in if is_digit c then rest else n

abbrev negated : ℕ → ℕ
negated n = (4294967296 - n % 4294967296) % 4294967296

abbrev signed : List ℕ → ℕ
signed [] = 0
signed (c ∷ cs) =
    if c == b'-'
    then negated (digits 0 cs)
    else if c == b'+'
    then digits 0 cs % 4294967296
    else digits 0 (c ∷ cs) % 4294967296

abbrev pub atoi : List ℕ → ℕ
atoi [] = 0
atoi (c ∷ cs) = let rest = atoi cs in if is_space c then rest else signed (c ∷ cs)
