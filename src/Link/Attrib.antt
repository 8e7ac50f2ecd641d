-- ===== src/Link/Attrib.antt =====
-- `SCardGetAttrib` and `SCardSetAttrib` from the application to the library and back.
use pcsc_proxy_android.Prelude.{
  ℕ, ◌+◌, ◌≤◌, ◌≡◌, ◌∙◌, ap, inl, inr, Bool, true, false, some, List, arith,
}
use pcsc_proxy_android.Memory.{Bytes, load32, store32, store_bytes, load_bytes}
use pcsc_proxy_android.Memory.Laws.{load32-store32, store_bytes_outside, length-load_bytes}
use pcsc_proxy_android.Message.Layout.{max_buffer_len}
use pcsc_proxy_android.Message.Fields.{
  getset_card, getset_attr_id, getset_attr, getset_attr_len, getset_rv,
}
use pcsc_proxy_android.Message.Command.{Command}
use pcsc_proxy_android.Server.Pcsc.{Pcsc, Answer, sign_extend}
use pcsc_proxy_android.Server.Lengths.{clamp, handle_get_attrib, handle_set_attrib}
use pcsc_proxy_android.Server.Dispatch.{handle}
use pcsc_proxy_android.Server.Loop.{arrived}
use pcsc_proxy_android.Client.State.{CardContext}
use pcsc_proxy_android.Client.Calls.{request}
use pcsc_proxy_android.Client.Calls.Lists.{get_attrib_request, set_attrib_request}
use pcsc_proxy_android.Link.Words.{load32-arrived, IsRequest, request-IsRequest, store32-IsRequest}
use pcsc_proxy_android.Link.Calls.{word}
use pcsc_proxy_android.Link.Transmit.{past, blank}
use pcsc_proxy_android.Link.Fixed.{beside}

-- the two words that both messages begin with
abbrev pub named : Command → CardContext → ℕ → Bytes
named cmd k attribute =
    store32 (store32 (request cmd 4117) getset_card k.pcsc_handle) getset_attr_id attribute

named-IsRequest :
    (cmd : Command) (k : CardContext) (attribute : ℕ) → IsRequest cmd 4117 (named cmd k attribute)
named-IsRequest cmd k attribute =
    store32-IsRequest _ _ _ _ _ (omega arith)
      (store32-IsRequest _ _ _ _ _ (omega arith) (request-IsRequest cmd 4117 (omega arith)))

-- the room that the request names: none without a buffer
abbrev pub attrib_room : Bool → ℕ → ℕ
attrib_room true n = clamp max_buffer_len n
attrib_room false n = 0

abbrev pub attrib_asked :
    {P : Type 0}
    → Pcsc P
    → P
    → CardContext
    → (attribute : ℕ) → (given : Bool) → (n : ℕ) → P × ℕ × Answer
attrib_asked lib p k attribute given n =
    lib.get_attrib p (sign_extend (word k.pcsc_handle)) (word attribute) (attrib_room given n)

pub fitting :
    (n : ℕ)
    → (word (clamp max_buffer_len n) ≡ clamp max_buffer_len n)
      × (clamp max_buffer_len n ≤ 4096)
      × (clamp max_buffer_len n ≤ n)
fitting n = ground arith

-- What the service finds in a request of either kind.
pub record IsAttrib (cmd : Command) (k : CardContext) (attribute n : ℕ) (m : Bytes) : Type 0 where
  pub made : IsRequest cmd 4117 m
  pub card : load32 m getset_card ≡ word k.pcsc_handle
  pub attribute_there : load32 m getset_attr_id ≡ word attribute
  pub count : load32 m getset_attr_len ≡ n

pub get_request-IsAttrib :
    (k : CardContext) (attribute : ℕ) (given : Bool) (n : ℕ)
    → IsAttrib Command.get_attrib k attribute
        (attrib_room given n)
        (get_attrib_request k attribute given (some n))
get_request-IsAttrib k attribute true n = record {
  made = store32-IsRequest _ _ _ _ _ (omega arith) (named-IsRequest _ k attribute);
  card = past _ _ _ _ (omega arith) (past _ _ _ _ (omega arith) (load32-store32 _ _ _));
  attribute_there = past _ _ _ _ (omega arith) (load32-store32 _ _ _);
  count = load32-store32 _ _ _ ∙ (fitting n).0;
}
get_request-IsAttrib k attribute false n = record {
  made = named-IsRequest _ k attribute;
  card = past _ _ _ _ (omega arith) (load32-store32 _ _ _);
  attribute_there = load32-store32 _ _ _;
  count =
      past _ _ _ _ (omega arith)
        (past _ _ _ _ (omega arith) (blank Command.get_attrib 4117 getset_attr_len (omega arith)));
}

pub set_request-IsAttrib :
    (k : CardContext) (attribute : ℕ) (attr : Bytes) (n : ℕ)
    → n ≤ 4096
    → IsAttrib Command.set_attrib k attribute n (set_attrib_request k attribute (some attr) n)
set_request-IsAttrib k attribute attr n h = record {
  made = record {
    kind = store_bytes_outside _ 13 _ 0 (inl (omega arith)) ∙ q.kind;
    size = beside _ 13 _ 1 (inr (omega arith)) q.size;
  };
  card =
      beside _ 13 _ 5 (inr (omega arith))
        (past _ _ _ _ (omega arith) (past _ _ _ _ (omega arith) (load32-store32 _ _ _)));
  attribute_there =
      beside _ 13 _ 9 (inr (omega arith)) (past _ _ _ _ (omega arith) (load32-store32 _ _ _));
  count =
      beside _ 13 _ 4109 (inl (omega (arith, length-load_bytes attr 0 n))) (load32-store32 _ _ _)
      ∙ omega arith;
}
  where
    q :
        IsRequest Command.set_attrib 4117
          (store32 (named Command.set_attrib k attribute) getset_attr_len n)
    q = store32-IsRequest _ _ _ _ _ (omega arith) (named-IsRequest _ k attribute)

pub arrived-IsAttrib :
    (stack m : Bytes) (cmd : Command) (k : CardContext) (attribute n : ℕ)
    → IsAttrib cmd k attribute n m
    → (load32 (arrived stack m) getset_card ≡ word k.pcsc_handle)
      × (load32 (arrived stack m) getset_attr_id ≡ word attribute)
      × (load32 (arrived stack m) getset_attr_len ≡ n)
arrived-IsAttrib stack m cmd k attribute n t = (
  at getset_card (omega arith) ∙ t.card,
  at getset_attr_id (omega arith) ∙ t.attribute_there,
  at getset_attr_len (omega arith) ∙ t.count,
)
  where
    at : (o : ℕ) → o + 4 ≤ 4117 → load32 (arrived stack m) o ≡ load32 m o
    at o h = load32-arrived stack m o (omega (arith, t.made.size))

-- the message after the library's answer
abbrev pub attrib_answer : Bytes → ℕ → Answer → Bytes
attrib_answer z res a =
    store32 (store32 (store_bytes z getset_attr a.bytes) getset_attr_len a.size) getset_rv res

module _ {P : Type 0} (lib : Pcsc P) where
  pub handle_get_eq :
      (p : P) (z : Bytes) (k : CardContext) (attribute n : ℕ)
      → (load32 z getset_card ≡ word k.pcsc_handle)
        × (load32 z getset_attr_id ≡ word attribute)
        × (load32 z getset_attr_len ≡ n)
      → let r = lib.get_attrib p (sign_extend (word k.pcsc_handle)) (word attribute) n in
        handle lib Command.get_attrib p z ≡ (r.0, attrib_answer z r.1 r.2)
  unfolding handle handle_get_attrib
  handle_get_eq p z k attribute n t = λ i.
      let r = lib.get_attrib p (sign_extend (t.0 i)) (t.1 i) (t.2 i) in
      (r.0, attrib_answer z r.1 r.2)

  pub handle_set_eq :
      (p : P) (z : Bytes) (k : CardContext) (attribute n : ℕ) (xs : List ℕ)
      → (load32 z getset_card ≡ word k.pcsc_handle)
        × (load32 z getset_attr_id ≡ word attribute)
        × (load32 z getset_attr_len ≡ n)
      → load_bytes z getset_attr n ≡ xs
      → let r = lib.set_attrib p (sign_extend (word k.pcsc_handle)) (word attribute) xs in
        handle lib Command.set_attrib p z ≡ (r.0, store32 z getset_rv r.1)
  unfolding handle handle_set_attrib
  handle_set_eq p z k attribute n xs t b =
      (λ i.
        let r = lib.set_attrib p (sign_extend (t.0 i)) (t.1 i) (load_bytes z getset_attr (t.2 i)) in
        (r.0, store32 z getset_rv r.1))
      ∙ ap
          (λ ys.
            let r = lib.set_attrib p (sign_extend (word k.pcsc_handle)) (word attribute) ys in
            (r.0, store32 z getset_rv r.1))
          b
