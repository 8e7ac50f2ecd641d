-- ===== src/Tests/Dump.antt =====
-- Texts of `pp_dumpString` (src/common/message.c).
use pcsc_proxy_android.Prelude.{
  ℕ, ◌≡◌, refl, ◌==◌, if◌then◌else◌, some, List, [], ◌∷◌, ◌++◌, true, arith, replicate,
}
use pcsc_proxy_android.Memory.{Bytes, load_bytes}
use pcsc_proxy_android.Message.Dump.{pp_dump_string}
use pcsc_proxy_android.Message.Dump.Reader.{read_text}
use pcsc_proxy_android.Message.Dump.Laws.{read_text-dump}

-- 00 A4 41 FF ..
abbrev command : Bytes
command q = if q == 1 then 0xa4 else if q == 2 then 0x41 else if q == 3 then 0xff else 0

command_text :
    pp_dump_string 1 true command 4 1
    ≡ some (
        (32 ∷ b'S' ∷ b't' ∷ b'r' ∷ b'i' ∷ b'n' ∷ b'g' ∷ 32 ∷ b's' ∷ b'i' ∷ b'z' ∷ b'e' ∷ 32 ∷ b'i'
          ∷ b's' ∷ 32 ∷ b'4' ∷ b':' ∷ 10 ∷ [])
        ++ (32 ∷ b'0' ∷ b'0' ∷ b'0' ∷ b'0' ∷ b':' ∷ 32 ∷ b'0' ∷ b'0' ∷ 32 ∷ b'a' ∷ b'4' ∷ 32 ∷ b'4'
            ∷ b'1' ∷ 32 ∷ b'f' ∷ b'f' ∷ 32 ∷ [])
        ++ replicate 36 32
        ++ (b'.' ∷ b'.' ∷ b'A' ∷ b'.' ∷ 10 ∷ []))
unfolding pp_dump_string
command_text = refl

read_text-dump_example :
    (t : List ℕ) × (pp_dump_string 2 true command 20 2 ≡ some t)
    × (read_text 2 t ≡ load_bytes command 0 20)
read_text-dump_example =
    read_text-dump true command 20 2 2 (λ i. ground arith) (omega arith) (omega arith)
