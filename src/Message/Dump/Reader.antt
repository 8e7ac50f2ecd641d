-- ===== src/Message/Dump/Reader.antt =====
-- A reader of the text that `pp_dumpString` (src/common/message.c) writes, and the characters that the
-- parts of the text do not have.
use pcsc_proxy_android.Prelude.{
  ℕ, zero, suc, ◌+◌, ◌-◌, ◌*◌, ◌/◌, ◌%◌, ◌<◌, ◌≡◌, ◌≢◌, refl, ap, ◌∙◌, Bool, true, false, ltb, ◌==◌,
  if◌then◌else◌, List, [], ◌∷◌, ◌++◌, map, replicate, drop, arith,
}
use pcsc_proxy_android.Memory.{Bytes, load_bytes}
use pcsc_proxy_android.Message.Dump.{
  digit, digits, hex2, hex4, decimal, shown, hex_column, blanks, size_text, size_line,
}

-- A reader of such texts, who looks at the hexadecimal columns alone.
abbrev value : ℕ → ℕ
value d = if ltb d 58 then d - 48 else d - 87

-- what stands behind the first `c`
abbrev pub after : ℕ → List ℕ → List ℕ
after c [] = []
after c (x ∷ xs) = if x == c then xs else after c xs

abbrev pub read_hex : ℕ → List ℕ → List ℕ
read_hex zero t = []
read_hex (suc n) [] = []
read_hex (suc n) (a ∷ []) = []
read_hex (suc n) (a ∷ b ∷ []) = []
read_hex (suc n) (a ∷ b ∷ c ∷ t) = if a == 32 then [] else (16 * value a + value b) ∷ read_hex n t

abbrev pub read_row : List ℕ → List ℕ
read_row t = read_hex 16 (drop 1 (after 58 t))

abbrev pub read_rows : ℕ → List ℕ → List ℕ
read_rows zero t = []
read_rows (suc n) t = read_row t ++ read_rows n (after 10 t)

pub rows_of_none : (n : ℕ) → read_rows n [] ≡ []
rows_of_none zero = refl
rows_of_none (suc n) = rows_of_none n

-- the bytes of a whole text, whose first line is not a row
abbrev pub read_text : ℕ → List ℕ → List ℕ
read_text n t = read_rows n (after 10 t)

value-digit : (d : ℕ) → d < 16 → value (digit d) ≡ d
value-digit d h = ground arith

pub digit-colon : (d : ℕ) → d < 16 → digit d ≢ 58
digit-colon d h e = ground arith

pub digit-newline : (d : ℕ) → d < 16 → digit d ≢ 10
digit-newline d h e = ground arith

digit-space : (d : ℕ) → d < 16 → (digit d == 32) ≡ false
digit-space d h = ground arith

read_one :
    (b n : ℕ) (t : List ℕ) → b < 256 → read_hex (suc n) (hex2 b ++ (32 ∷ t)) ≡ b ∷ read_hex n t
read_one b n t h =
    let hi = digit-space (b % 256 / 16) (omega arith) in
    rw (hi, value-digit (b % 256 / 16) (omega arith), value-digit (b % 16) (omega arith))
      (ap (λ v. v ∷ read_hex n t) (omega arith))

pub read_hex-column :
    (s : Bytes) (n pos k : ℕ) (t : List ℕ)
    → ((i : ℕ) → s i < 256)
    → read_hex n t ≡ []
    → read_hex (k + n) (hex_column (load_bytes s pos k) ++ t) ≡ load_bytes s pos k
read_hex-column s n pos zero t h e = ap (λ j. read_hex j t) (omega arith) ∙ e
read_hex-column s n pos (suc k) t h e =
    let next : suc k + n ≡ suc (k + n) = omega arith in
    ap (λ j. read_hex j (hex_column (load_bytes s pos (suc k)) ++ t)) next
    ∙ read_one (s pos) (k + n) (hex_column (load_bytes s (pos + 1) k) ++ t) (h pos)
    ∙ ap (λ bs. s pos ∷ bs) (read_hex-column s n (pos + 1) k t h e)

pub read_hex-blanks : (n : ℕ) (t : List ℕ) → read_hex n (blanks n ++ t) ≡ []
read_hex-blanks zero t = refl
read_hex-blanks (suc n) t = refl

-- A text without the character `c`.
abbrev pub Lacks : ℕ → List ℕ → Type 0
Lacks c [] = Unit
Lacks c (x ∷ xs) = (x ≢ c) × Lacks c xs

pub after-Lacks : (c : ℕ) (xs t : List ℕ) → Lacks c xs → after c (xs ++ (c ∷ t)) ≡ t
after-Lacks c [] t h = ground arith
after-Lacks c (x ∷ xs) t h = ground (arith, after-Lacks c xs t h.1)

pub after-skip : (c : ℕ) (xs t : List ℕ) → Lacks c xs → after c (xs ++ t) ≡ after c t
after-skip c [] t h = refl
after-skip c (x ∷ xs) t h = ground (arith, after-skip c xs t h.1)

abbrev absent : ℕ → List ℕ → Bool
absent c [] = true
absent c (x ∷ xs) = if x == c then false else absent c xs

absent-Lacks : (c : ℕ) (xs : List ℕ) → absent c xs ≡ true → Lacks c xs
absent-Lacks c [] h = tt
absent-Lacks c (x ∷ xs) h = ((λ e. ground arith), absent-Lacks c xs (ground arith))

pub append-Lacks : (c : ℕ) (xs ys : List ℕ) → Lacks c xs → Lacks c ys → Lacks c (xs ++ ys)
append-Lacks c [] ys h k = k
append-Lacks c (x ∷ xs) ys h k = (h.0, append-Lacks c xs ys h.1 k)

pub replicate-Lacks : (c n : ℕ) → 32 ≢ c → Lacks c (replicate n 32)
replicate-Lacks c zero h = tt
replicate-Lacks c (suc n) h = (h, replicate-Lacks c n h)

pub blanks-Lacks : (n : ℕ) → Lacks 10 (blanks n)
blanks-Lacks zero = tt
blanks-Lacks (suc n) =
    ((λ e. omega arith), ((λ e. omega arith), ((λ e. omega arith), blanks-Lacks n)))

pub hex_column-Lacks : (bs : List ℕ) → Lacks 10 (hex_column bs)
hex_column-Lacks [] = tt
hex_column-Lacks (b ∷ bs) = (
  digit-newline (b % 256 / 16) (omega arith),
  (digit-newline (b % 16) (omega arith), ((λ e. omega arith), hex_column-Lacks bs)),
)

pub shown-Lacks : (signed : Bool) (bs : List ℕ) → Lacks 10 (map (shown signed) bs)
shown-Lacks signed [] = tt
shown-Lacks signed (b ∷ bs) = ((λ e. ground arith), shown-Lacks signed bs)

if-Lacks :
    (c : ℕ) (b : Bool) (xs ys : List ℕ)
    → (b ≡ true → Lacks c xs)
    → Lacks c ys
    → Lacks c (if b then xs else ys)
if-Lacks c true xs ys h k = h refl
if-Lacks c false xs ys h k = k

pub less_than : (a b : ℕ) → ltb a b ≡ true → a < b
less_than a b h = ground arith

module _ (c : ℕ) (no_digit : (d : ℕ) → d < 16 → digit d ≢ c) where
  digits-Lacks :
      (base k n : ℕ) (t : List ℕ)
      → ((i : ℕ) → i % base < 16)
      → Lacks c t
      → Lacks c (digits base k n t)
  digits-Lacks base zero n t h l = l
  digits-Lacks base (suc k) n t h l =
      if-Lacks c (n / base == 0) _ _ (λ e. (no_digit (n % base) (h n), l))
        (digits-Lacks base k (n / base) (digit (n % base) ∷ t) h (no_digit (n % base) (h n), l))

  pub hex4-Lacks : (n : ℕ) → Lacks c (hex4 n)
  hex4-Lacks n =
      if-Lacks c (ltb n 0x10000) _ _
        (λ e.
          let small = less_than n 0x10000 e in
          (
            no_digit (n / 4096) (omega arith),
            (
              no_digit (n / 256 % 16) (omega arith),
              (no_digit (n / 16 % 16) (omega arith), (no_digit (n % 16) (omega arith), tt)),
            ),
          ))
        (digits-Lacks 16 8 n [] (λ i. omega arith) tt)

decimal-Lacks : (n : ℕ) → Lacks 10 (decimal n)
decimal-Lacks n =
    if-Lacks 10 (ltb n 0x80000000) _ _
      (λ e. digits-Lacks 10 digit-newline 10 10 n [] (λ i. omega arith) tt)
      (
        (λ e. omega arith),
        digits-Lacks 10 digit-newline 10 10 (0x100000000 - n) [] (λ i. omega arith) tt,
      )

pub size_line-Lacks : (l insert : ℕ) → Lacks 10 (size_line l insert)
size_line-Lacks l insert =
    append-Lacks 10 (replicate insert 32) _ (replicate-Lacks 10 insert (λ e. omega arith)) (
      append-Lacks 10 size_text _ (absent-Lacks 10 size_text refl)
        (append-Lacks 10 (decimal l) _ (decimal-Lacks l) ((λ e. omega arith), tt)))

pub same_start : (s : Bytes) (a b n : ℕ) → (n ≢ 0 → a ≡ b) → load_bytes s a n ≡ load_bytes s b n
same_start s a b zero h = refl
same_start s a b (suc n) h = ap (λ p. load_bytes s p (suc n)) (h (λ e. omega arith))
