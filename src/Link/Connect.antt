-- ===== src/Link/Connect.antt =====
-- `SCardConnect` over a session to the service.
use pcsc_proxy_android.Prelude.{ℕ, ◌+◌, ◌≤◌, ◌<◌, ◌≡◌, ◌∙◌, inr, ◌⊎◌, List, arith, length}
use native.Mathlib.Decide.{ℕ_discrete}
use pcsc_proxy_android.Memory.{Bytes, zeroed, load32, store8, store32, store_bytes, load_bytes}
use pcsc_proxy_android.Memory.Laws.{
  load32-store32, store32_outside, store_bytes_outside, load32_eq, load_bytes_eq,
  load_bytes-store_bytes,
}
use pcsc_proxy_android.Message.Layout.{header_type, header_len, msg_size, connect}
use pcsc_proxy_android.Message.Fields.{
  connect_context, connect_reader, connect_share_mode, connect_preferred_protocols,
}
use pcsc_proxy_android.Message.Command.{Command, code}
use pcsc_proxy_android.Server.Loop.{arrived, msg_len}
use pcsc_proxy_android.Client.State.{ClientContext}
use pcsc_proxy_android.Client.Calls.{request}
use pcsc_proxy_android.Client.Calls.Card.{connect_request}
use pcsc_proxy_android.Link.Words.{
  IsRequest, request-IsRequest, store32-IsRequest, load32-arrived, arrived_byte,
}
use pcsc_proxy_android.Link.Transmit.{past, before}
use pcsc_proxy_android.Link.Calls.{word}

store8_outside : (m : Bytes) (o v q : ℕ) → (q < o) ⊎ (o < q) → store8 m o v q ≡ m q
unfolding store8
store8_outside m o v q h = ground arith

store8_there : (m : Bytes) (o q : ℕ) → q ≡ o → store8 m o 0 q ≡ 0
unfolding store8
store8_there m o q h = ground arith

around :
    {k : ℕ} (m : Bytes) (o v q : ℕ)
    → (o < q) ⊎ (q + 4 ≤ o)
    → load32 m q ≡ k
    → load32 (store8 m o v) q ≡ k
around m o v q h e =
    load32_eq (store8 m o v) m q (λ i a b. store8_outside m o v i (omega arith)) ∙ e

empty_request : (c : Command) (n q : ℕ) → 5 ≤ q → request c n q ≡ 0
empty_request c n q h =
    store32_outside (store8 zeroed header_type (code c)) header_len n q (inr (omega arith))
    ∙ store8_outside zeroed header_type (code c) q (inr (omega arith))

-- What the service finds in a request to connect to the reader `name`.
pub record IsConnect (x : ClientContext) (name : List ℕ) (share preferred : ℕ) (m : Bytes)
    : Type 0 where
  pub kind : m header_type ≡ code Command.connect
  pub size : msg_len m ≡ 157
  pub context : load32 m connect_context ≡ word x.pcsc_context
  pub share_mode : load32 m connect_share_mode ≡ word share
  pub protocols : load32 m connect_preferred_protocols ≡ word preferred
  pub name_there : load_bytes m connect_reader (length name) ≡ name
  pub name_ends : m (connect_reader + length name) ≡ 0

pub connect_request-IsConnect :
    (x : ClientContext) (name : List ℕ) (share preferred : ℕ)
    → length name < 128
    → IsConnect x name share preferred (connect_request x name share preferred)
connect_request-IsConnect x name share preferred h = record {
  kind =
      store32_outside _ _ _ 0 (omega arith)
      ∙ store32_outside _ _ _ 0 (omega arith)
      ∙ store8_outside m2 136 0 0 (omega arith)
      ∙ store_bytes_outside m1 9 name 0 (omega arith)
      ∙ q1.kind;
  size = late 1 (omega arith) (before m1 9 name 1 (omega arith) q1.size);
  context = late 5 (omega arith) (before m1 9 name 5 (omega arith) (load32-store32 _ _ _));
  share_mode = past _ _ _ 137 (omega arith) (load32-store32 _ _ _);
  protocols = load32-store32 _ _ _;
  name_there =
      load_bytes_eq _ m2 9 (length name) (λ q a b.
        store32_outside _ _ _ q (omega arith)
        ∙ store32_outside _ _ _ q (omega arith)
        ∙ store8_outside m2 136 0 q (omega arith))
      ∙ load_bytes-store_bytes m1 9 name;
  name_ends =
      store32_outside _ _ _ (9 + length name) (omega arith)
      ∙ store32_outside _ _ _ (9 + length name) (omega arith)
      ∙ (elim (ℕ_discrete (9 + length name) 136) [
        | yes e ↦ store8_there m2 136 (9 + length name) e
        | no n ↦
            store8_outside m2 136 0 (9 + length name) (omega arith)
            ∙ store_bytes_outside m1 9 name (9 + length name) (omega arith)
            ∙ store32_outside _ 5 _ (9 + length name) (omega arith)
            ∙ empty_request Command.connect 157 (9 + length name) (omega arith)
      ]);
}
  where
    m1 : Bytes
    m1 = store32 (request Command.connect (msg_size connect)) connect_context x.pcsc_context

    m2 : Bytes
    m2 = store_bytes m1 connect_reader name

    q1 : IsRequest Command.connect 157 m1
    q1 =
        store32-IsRequest _ _ _ _ _ (omega arith)
          (request-IsRequest Command.connect 157 (omega arith))

    late :
        {v : ℕ} (q : ℕ)
        → q + 4 ≤ 136
        → load32 m2 q ≡ v
        → load32
            (store32
              (store32 (store8 m2 136 0) connect_share_mode share)
              connect_preferred_protocols
              preferred)
            q
          ≡ v
    late q a e =
        past _ _ _ q (omega arith) (past _ _ _ q (omega arith) (around m2 136 0 q (omega arith) e))

pub arrived-IsConnect :
    (stack m : Bytes) (x : ClientContext) (name : List ℕ) (share preferred : ℕ)
    → length name < 128
    → IsConnect x name share preferred m
    → IsConnect x name share preferred (arrived stack m)
arrived-IsConnect stack m x name share preferred h t = record {
  kind = arrived_byte stack m 0 (omega (arith, t.size)) ∙ t.kind;
  size = at 1 (omega arith) ∙ t.size;
  context = at 5 (omega arith) ∙ t.context;
  share_mode = at 137 (omega arith) ∙ t.share_mode;
  protocols = at 141 (omega arith) ∙ t.protocols;
  name_there =
      load_bytes_eq (arrived stack m) m 9 (length name)
        (λ q a b. arrived_byte stack m q (omega (arith, t.size)))
      ∙ t.name_there;
  name_ends = arrived_byte stack m (9 + length name) (omega (arith, t.size)) ∙ t.name_ends;
}
  where
    at : (o : ℕ) → o + 4 ≤ 157 → load32 (arrived stack m) o ≡ load32 m o
    at o b = load32-arrived stack m o (omega (arith, t.size))
