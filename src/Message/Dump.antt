-- ===== src/Message/Dump.antt =====
-- The text that `pp_dumpString` of src/common/message.c writes: rows of 16 bytes, in hexadecimal and as
-- characters.
pub mod Reader
pub mod Laws
use pcsc_proxy_android.Prelude.{
  ℕ, zero, suc, ◌+◌, ◌-◌, ◌/◌, ◌%◌, Bool, ◌&&◌, ◌||◌, ltb, leb, ◌==◌, if◌then◌else◌, Option, none,
  some, List, [], ◌∷◌, ◌++◌, map, replicate,
}
use mathlib.Core.Option
use pcsc_proxy_android.Memory.{Bytes, load_bytes}

-- a digit of `%x`
abbrev pub digit : ℕ → ℕ
digit d = if ltb d 10 then 48 + d else 87 + d

-- the digits of `n` to base 16 or 10, at most `k`, in front of `rest`
abbrev pub digits : (base k n : ℕ) → (rest : List ℕ) → List ℕ
digits base zero n rest = rest
digits base (suc k) n rest =
    if n / base == 0
    then digit (n % base) ∷ rest
    else digits base k (n / base) (digit (n % base) ∷ rest)

-- `%02x` of an `unsigned char`
abbrev pub hex2 : ℕ → List ℕ
hex2 b = digit (b % 256 / 16) ∷ digit (b % 16) ∷ []

-- `%04x` of an `unsigned int`
abbrev pub hex4 : ℕ → List ℕ
hex4 n =
    if ltb n 0x10000
    then digit (n / 4096) ∷ digit (n / 256 % 16) ∷ digit (n / 16 % 16) ∷ digit (n % 16) ∷ []
    else digits 16 8 n []

-- `%d`, which takes the 32-bit word for a signed one
abbrev pub decimal : ℕ → List ℕ
decimal n = if ltb n 0x80000000 then digits 10 10 n [] else b'-' ∷ digits 10 10 (0x100000000 - n) []

-- The character of a byte, or a dot for a control character; with a signed `char`, that is also what
-- the bytes from 128 on are.
abbrev pub shown : Bool → ℕ → ℕ
shown signed b = let v = b % 256 in if ltb v 32 || (signed && leb 128 v) then b'.' else v

abbrev pub hex_column : List ℕ → List ℕ
hex_column [] = []
hex_column (b ∷ bs) = hex2 b ++ (32 ∷ hex_column bs)

-- in place of the bytes that a short row lacks
abbrev pub blanks : ℕ → List ℕ
blanks zero = []
blanks (suc n) = 32 ∷ 32 ∷ 32 ∷ blanks n

-- `pos+16` in an `unsigned int`
abbrev pub after_row : ℕ → ℕ
after_row pos = (pos + 16) % 0x100000000

-- `j`, the end of the row
abbrev pub row_end : (pos l : ℕ) → ℕ
row_end pos l = if leb l (after_row pos) then l else after_row pos

-- `16-(j-pos)` where `j-pos<16` holds, as an `unsigned int`
abbrev pub missing : (pos j : ℕ) → ℕ
missing pos j = 16 - (0x100000000 + j - pos) % 0x100000000

-- one row, without the end of the line
abbrev pub row : Bool → Bytes → (l insert pos : ℕ) → List ℕ
row signed s l insert pos =
    let j = row_end pos l in
    let bytes = load_bytes s pos (j - pos) in
    replicate insert 32
    ++ (hex4 pos
        ++ (58 ∷ 32 ∷ (hex_column bytes ++ (blanks (missing pos j) ++ map (shown signed) bytes))))

-- `while(pos<l)`, with at most `rounds` rows: `none` where they do not do.
unfoldable pub dump_rows : ℕ → Bool → Bytes → (l insert pos : ℕ) → Option (List ℕ)
dump_rows zero signed s l insert pos = if ltb pos l then none else some []
dump_rows (suc rounds) signed s l insert pos =
    let rest = dump_rows rounds signed s l insert (after_row pos) in
    if ltb pos l
    then Option.map (λ text. row signed s l insert pos ++ (10 ∷ text)) rest
    else some []

-- "String size is "
abbrev pub size_text : List ℕ
size_text =
    b'S' ∷ b't' ∷ b'r' ∷ b'i' ∷ b'n' ∷ b'g' ∷ 32 ∷ b's' ∷ b'i' ∷ b'z' ∷ b'e' ∷ 32 ∷ b'i' ∷ b's' ∷ 32
    ∷ []

abbrev pub size_line : (l insert : ℕ) → List ℕ
size_line l insert = replicate insert 32 ++ (size_text ++ (decimal l ++ (58 ∷ [])))

unfoldable pub pp_dump_string : ℕ → Bool → Bytes → (l insert : ℕ) → Option (List ℕ)
unfolding dump_rows
pp_dump_string rounds signed s l insert =
    Option.map (λ text. size_line l insert ++ (10 ∷ text)) (dump_rows rounds signed s l insert 0)
