-- ===== src/Link/Words.antt =====
-- Reading words through the copy of a message into the other side's buffer.
use pcsc_proxy_android.Prelude.{ℕ, ◌+◌, ◌%◌, ◌^◌, ◌≤◌, ◌<◌, ◌≡◌, ◌∙◌, arith, inl, inr}
use pcsc_proxy_android.Memory.{Bytes, zeroed, load32, store8, store32}
use pcsc_proxy_android.Memory.Laws.{
  load32-store32, load32-store32_apart, store32_outside, load32_eq, store_bytes-load_bytes,
}
use pcsc_proxy_android.Message.Layout.{header_type, header_len}
use pcsc_proxy_android.Message.Command.{Command, code}
use pcsc_proxy_android.Server.Loop.{msg_len, arrived}
use pcsc_proxy_android.Client.Calls.{request}

pub arrived_byte : (stack m : Bytes) (q : ℕ) → q < msg_len m → arrived stack m q ≡ m q
arrived_byte stack m q h =
    store_bytes-load_bytes m stack 0 (msg_len m) q (omega arith) (omega arith)

pub load32-arrived :
    (stack m : Bytes) (o : ℕ) → o + 4 ≤ msg_len m → load32 (arrived stack m) o ≡ load32 m o
load32-arrived stack m o h =
    load32_eq (arrived stack m) m o (λ q a b. arrived_byte stack m q (omega arith))

-- A message under construction: its type and its length.
pub record IsRequest (c : Command) (n : ℕ) (m : Bytes) : Type 0 where
  pub kind : m header_type ≡ code c
  pub size : msg_len m ≡ n

first_byte : (c : Command) → store8 zeroed header_type (code c) header_type ≡ code c
unfolding store8
first_byte Command.establish_context = omega arith
first_byte _ = omega arith

pub request-IsRequest : (c : Command) (n : ℕ) → n < 2 ^ 32 → IsRequest c n (request c n)
request-IsRequest c n h = record {
  kind =
      store32_outside (store8 zeroed header_type (code c)) header_len n header_type
        (inl (omega arith))
      ∙ first_byte c;
  size = load32-store32 (store8 zeroed header_type (code c)) header_len n ∙ omega arith;
}

pub store32-IsRequest :
    (c : Command) (n : ℕ) (m : Bytes) (o v : ℕ)
    → 5 ≤ o
    → IsRequest c n m
    → IsRequest c n (store32 m o v)
store32-IsRequest c n m o v h r = record {
  kind = store32_outside m o v header_type (inl (omega arith)) ∙ r.kind;
  size = load32-store32_apart m o header_len v (inr (omega arith)) ∙ r.size;
}

-- The word that the handler stores leaves the length as it is.
pub answered_len :
    (stack m : Bytes) (o v : ℕ)
    → 5 ≤ o
    → 5 ≤ msg_len m
    → msg_len (store32 (arrived stack m) o v) ≡ msg_len m
answered_len stack m o v a b =
    load32-store32_apart (arrived stack m) o header_len v (inr (omega arith))
    ∙ load32-arrived stack m header_len (omega arith)

-- The answer to a message, in the client's buffer, when the handler has stored one word.
pub answered_word :
    (stack m : Bytes) (o v : ℕ)
    → 5 ≤ o
    → o + 4 ≤ msg_len m
    → load32 (arrived m (store32 (arrived stack m) o v)) o ≡ v % 2 ^ 32
answered_word stack m o v a b =
    load32-arrived m (store32 (arrived stack m) o v) o
      (omega (arith, answered_len stack m o v a (omega arith)))
    ∙ load32-store32 (arrived stack m) o v
