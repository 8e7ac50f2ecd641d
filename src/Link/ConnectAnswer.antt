-- ===== src/Link/ConnectAnswer.antt =====
-- The answer to `SCardConnect`, in the service's buffer and in the client's.
use pcsc_proxy_android.Prelude.{zero, suc, ◌∷◌, ℕ, ◌+◌, ◌≤◌, ◌≡◌, refl, ◌∙◌, ap, arith}
use pcsc_proxy_android.Memory.{Bytes, load32, store32, load_bytes}
use pcsc_proxy_android.Memory.Laws.{load32-store32}
use pcsc_proxy_android.Message.Fields.{connect_card, connect_active_protocol, connect_rv}
use pcsc_proxy_android.Server.Handlers.{pointer}
use pcsc_proxy_android.Server.Loop.{arrived, msg_len}
use pcsc_proxy_android.Link.Words.{load32-arrived}
use pcsc_proxy_android.Link.Transmit.{past}
use pcsc_proxy_android.Link.Calls.{word}

-- What the client finds in the answer.
pub record IsConnectAnswer (res card active : ℕ) (m : Bytes) : Type 0 where
  pub size : msg_len m ≡ 157
  pub result : load32 m connect_rv ≡ word res
  pub card_there : load32 m connect_card ≡ word card
  pub protocol : load32 m connect_active_protocol ≡ word active

-- the message after the library's answer
abbrev pub connect_answer : Bytes → (res card active : ℕ) → Bytes
connect_answer z res card active =
    store32 (store32 (store32 z connect_card card) connect_active_protocol active) connect_rv res

pub connect_answer-IsConnectAnswer :
    (z : Bytes) (res card active : ℕ)
    → msg_len z ≡ 157
    → IsConnectAnswer res card active (connect_answer z res card active)
connect_answer-IsConnectAnswer z res card active h = record {
  size = past _ _ _ 1 (omega arith) (past _ _ _ 1 (omega arith) (past _ _ _ 1 (omega arith) h));
  result = load32-store32 _ _ _;
  card_there = past _ _ _ 145 (omega arith) (past _ _ _ 145 (omega arith) (load32-store32 _ _ _));
  protocol = past _ _ _ 149 (omega arith) (load32-store32 _ _ _);
}

pub arrived-IsConnectAnswer :
    (m y : Bytes) (res card active : ℕ)
    → IsConnectAnswer res card active y
    → IsConnectAnswer res card active (arrived m y)
arrived-IsConnectAnswer m y res card active t = record {
  size = there 1 (omega arith) ∙ t.size;
  result = there 153 (omega arith) ∙ t.result;
  card_there = there 145 (omega arith) ∙ t.card_there;
  protocol = there 149 (omega arith) ∙ t.protocol;
}
  where
    there : (o : ℕ) → o + 4 ≤ 157 → load32 (arrived m y) o ≡ load32 y o
    there o b = load32-arrived m y o (omega (arith, t.size))

pub load_bytes-pointer :
    (z : Bytes) (a n o : ℕ) → load_bytes (pointer z a) o n ≡ load_bytes z (a + o) n
load_bytes-pointer z a zero o = refl
load_bytes-pointer z a (suc n) o =
    ap (λ l. z (a + o) ∷ l)
      (load_bytes-pointer z a n (o + 1)
        ∙ ap (λ k. load_bytes z k n) (let e : a + (o + 1) ≡ a + o + 1 = omega arith in e))
