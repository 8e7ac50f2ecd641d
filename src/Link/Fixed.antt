-- ===== src/Link/Fixed.antt =====
-- Exchanges of messages whose length does not change: what the calls with buffers of a fixed size share.
use pcsc_proxy_android.Prelude.{ℕ, ◌+◌, ◌≤◌, ◌<◌, ◌≡◌, ◌∙◌, ap, ◌⊎◌, some, List, arith, length}
use pcsc_proxy_android.Memory.{Bytes, load32, store_bytes, load_bytes}
use pcsc_proxy_android.Memory.Laws.{load_bytes_eq, load32-store_bytes_apart}
use pcsc_proxy_android.Message.Layout.{header_type, max_message_len}
use pcsc_proxy_android.Message.Command.{Command}
use pcsc_proxy_android.Server.Pcsc.{Pcsc}
use pcsc_proxy_android.Server.Dispatch.{handle}
use pcsc_proxy_android.Server.Loop.{arrived, msg_len}
use pcsc_proxy_android.Client.State.{CardContext, Client, Environment, done}
use pcsc_proxy_android.Client.Exchange.{Network, pp_exchange_msg}
use pcsc_proxy_android.Link.{Service, direct, answer-handle, exchange_direct, fits-accepted}
use pcsc_proxy_android.Link.Words.{arrived_byte, IsRequest}
use pcsc_proxy_android.Link.Calls.{OnCard, exchanged}

-- a word seen past a copy of bytes on either side of it
pub beside :
    {k : ℕ} (m : Bytes) (o : ℕ) (xs : List ℕ) (q : ℕ)
    → (o + length xs ≤ q) ⊎ (q + 4 ≤ o)
    → load32 m q ≡ k
    → load32 (store_bytes m o xs) q ≡ k
beside m o xs q h e = load32-store_bytes_apart m o q xs h ∙ e

-- A part of a message that has arrived.
pub load_bytes-arrived :
    (stack m : Bytes) (o n : ℕ)
    → o + n ≤ msg_len m
    → load_bytes (arrived stack m) o n ≡ load_bytes m o n
load_bytes-arrived stack m o n h =
    load_bytes_eq (arrived stack m) m o n (λ q a b. arrived_byte stack m q (omega arith))

module _ {P : Type 0} (lib : Pcsc P) (env : Environment) (net : Network (Service P)) where
  pub exchange_fixed :
      {id : ℕ} {k : CardContext} {c : Client (Service P)} (h : OnCard env id k c) (cmd : Command)
      (n : ℕ) (m y : Bytes) (p : P)
      → IsRequest cmd n m
      → (5 ≤ n) × (n < max_message_len)
      → msg_len y ≡ n
      → handle lib cmd c.world.library (arrived c.world.stack m) ≡ (p, y)
      → pp_exchange_msg net (λ t. direct lib) k.client_context m c
        ≡ done (some (arrived m y)) (exchanged c p)
  exchange_fixed {c} h cmd n m y p q b l e =
      exchange_direct lib net h.tls c _ h.session h.context m y p
        (fits-accepted m (omega (arith, q.size)) (omega (arith, q.size)))
        (fits-accepted y (omega arith) (omega arith)) h.chosen h.owner h.connected
        (answer-handle lib cmd c.world.library (arrived c.world.stack m)
            (arrived_byte c.world.stack m header_type (omega (arith, q.size)) ∙ q.kind)
          ∙ ap some e)
