-- ===== src/Memory.antt =====
-- The memory that `s_message *msg` points to: byte `q` counts from the start of the message. A C
-- program may read and write past the 65 KiB buffer, and so may the model. Multi-byte fields are
-- little-endian, as on x86 and ARM, and `#pragma pack(1)` (src/common/message.h) leaves no padding.
pub mod Laws
use pcsc_proxy_android.Prelude.{
  ℕ, zero, suc, ◌+◌, ◌-◌, ◌*◌, ◌/◌, ◌%◌, List, [], ◌∷◌, leb, ◌==◌, if◌then◌else◌, get_or,
}

abbrev pub Bytes : Type 0
Bytes = ℕ → ℕ

-- `memset(m.buffer, 0, PP_MAX_MESSAGE_LEN)`, beyond the buffer too, where nothing is read.
abbrev pub zeroed : Bytes
zeroed q = 0

unfoldable pub store8 : Bytes → ℕ → ℕ → Bytes
store8 m o v q = if q == o then v % 256 else m q

unfoldable pub load32 : Bytes → ℕ → ℕ
load32 m o = m o + 256 * m (o + 1) + 65536 * m (o + 2) + 16777216 * m (o + 3)

-- A store into a `uint32_t` keeps the low 32 bits.
unfoldable pub store32 : Bytes → ℕ → ℕ → Bytes
unfolding store8
store32 m o v =
    store8 (store8 (store8 (store8 m o v) (o + 1) (v / 256)) (o + 2) (v / 65536)) (o + 3)
      (v / 16777216)

-- `memmove(p + o, xs, length xs)`
unfoldable pub store_bytes : Bytes → ℕ → List ℕ → Bytes
store_bytes m o xs q = if leb o q then get_or xs (q - o) (m q) else m q

-- the `n` bytes from `o` on
abbrev pub load_bytes : Bytes → ℕ → ℕ → List ℕ
load_bytes m o zero = []
load_bytes m o (suc n) = m o ∷ load_bytes m (o + 1) n
