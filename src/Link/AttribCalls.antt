-- ===== src/Link/AttribCalls.antt =====
-- The whole of `SCardGetAttrib` and `SCardSetAttrib`.
use native.Mathlib.Nat.{le_trans}
use pcsc_proxy_android.Prelude.{
  ℕ, ◌≤◌, ◌≡◌, ◌≢◌, refl, sym, ◌∙◌, ap, inr, Bool, true, false, none, some, arith, length, le→ltb,
  ne→==, if◌then◌else◌, min,
}
use pcsc_proxy_android.Memory.{Bytes, load32, store32, store_bytes, load_bytes}
use pcsc_proxy_android.Memory.Laws.{
  load_bytes_eq, load_bytes-store_bytes, load32-store32, store32_outside, length-load_bytes,
}
use pcsc_proxy_android.Message.Layout.{max_buffer_len}
use pcsc_proxy_android.Message.Fields.{getset_attr, getset_attr_len, getset_rv}
use pcsc_proxy_android.Message.Command.{Command}
use pcsc_proxy_android.Server.Pcsc.{Pcsc, Answer, IsBounded, sign_extend}
use pcsc_proxy_android.Server.Loop.{arrived, msg_len}
use pcsc_proxy_android.Client.State.{CardContext, Client, Environment, done, bind-done}
use pcsc_proxy_android.Client.Exchange.{Network, pp_exchange_msg}
use pcsc_proxy_android.Client.Calls.{exchange_rv-done, with_card-done}
use pcsc_proxy_android.Client.Calls.Buffers.{scard_autoallocate}
use pcsc_proxy_android.Client.Calls.Lists.{
  Filled, get_attrib_request, get_attrib_reply, set_attrib_request, scard_get_attrib,
  scard_set_attrib,
}
use pcsc_proxy_android.Link.{Service, direct}
use pcsc_proxy_android.Link.Words.{load32-arrived}
use pcsc_proxy_android.Link.Calls.{word, OnCard, exchanged}
use pcsc_proxy_android.Link.Transmit.{past}
use pcsc_proxy_android.Link.Fixed.{beside, load_bytes-arrived, exchange_fixed}
use pcsc_proxy_android.Link.Attrib.{
  attrib_room, attrib_asked, fitting, IsAttrib, get_request-IsAttrib, set_request-IsAttrib,
  arrived-IsAttrib, attrib_answer, handle_get_eq, handle_set_eq,
}

-- What `SCardGetAttrib` gives the application of the library's answer.
abbrev pub attrib_seen : {P : Type 0} → Bool → P × ℕ × Answer → Filled
attrib_seen given (p, res, a) = record {
  rv = word res;
  bytes = if given then some a.bytes else none;
  length = some (word a.size);
}

min_self : (n : ℕ) → min n n ≡ n
min_self n = omega arith

module _ (m z : Bytes) (res : ℕ) (a : Answer) (sized : msg_len z ≡ 4117)
    (f : length a.bytes ≤ 4096) where
  answer_len : msg_len (attrib_answer z res a) ≡ 4117
  answer_len =
      past _ _ _ 1 (omega arith)
        (past _ _ _ 1 (omega arith) (beside z 13 _ 1 (inr (omega arith)) sized))

  count_seen : load32 (arrived m (attrib_answer z res a)) getset_attr_len ≡ word a.size
  count_seen =
      load32-arrived m _ getset_attr_len (omega (arith, answer_len))
      ∙ past _ _ _ _ (omega arith) (load32-store32 _ _ _)

  result_seen : load32 (arrived m (attrib_answer z res a)) getset_rv ≡ word res
  result_seen = load32-arrived m _ getset_rv (omega (arith, answer_len)) ∙ load32-store32 _ _ _

  bytes_seen : load_bytes (arrived m (attrib_answer z res a)) getset_attr (length a.bytes) ≡ a.bytes
  bytes_seen =
      load_bytes-arrived m _ 13 (length a.bytes) (omega (arith, answer_len))
      ∙ load_bytes_eq _ (store_bytes z 13 a.bytes) 13 (length a.bytes) (λ q l u.
        store32_outside _ 4113 _ q (omega arith) ∙ store32_outside _ 4109 _ q (omega arith))
      ∙ load_bytes-store_bytes z 13 a.bytes

  reply-seen :
      {P : Type 0} (p : P) (given : Bool) (n : ℕ)
      → (given ≡ true → a.size ≡ length a.bytes)
      → get_attrib_reply (arrived m (attrib_answer z res a)) given (some n)
        ≡ attrib_seen given (p, res, a)
  unfolding get_attrib_reply
  reply-seen p true n e = λ i. record {
    rv = result_seen i;
    bytes = some (
        (ap (load_bytes (arrived m (attrib_answer z res a)) getset_attr)
              (min_self _ ∙ count_seen ∙ omega (arith, e refl))
            ∙ bytes_seen)
          i);
    length = some (count_seen i);
  }
  reply-seen p false n e =
      λ i. record { rv = result_seen i; bytes = none; length = some (count_seen i) }

module _ {P : Type 0} (lib : Pcsc P) (fits : IsBounded lib) (env : Environment)
    (net : Network (Service P)) (id : ℕ) (k : CardContext) (c : Client (Service P))
    (attribute n : ℕ) (h : OnCard env id k c) where
  -- `SCardGetAttrib` on a connected card, with a length other than `SCARD_AUTOALLOCATE`: the library at
  -- the other end is asked once, for the handle that the card notes, for at most as much as fits the
  -- buffer and the message, or for nothing where there is no buffer; the application gets its result
  -- and the length that it reports and, in a buffer, exactly its bytes; nothing else of the client
  -- changes. Where there is a buffer, the library reports the number of bytes that it gives.
  pub scard_get_attrib-seen :
      (given : Bool)
      → n ≢ scard_autoallocate
      → let r = attrib_asked lib c.world.library k attribute given n in
        (given ≡ true → r.2.size ≡ length r.2.bytes)
        → scard_get_attrib env net (λ t. direct lib) id attribute given (some n) c
          ≡ done (attrib_seen given r) (exchanged c r.0)
  unfolding scard_get_attrib
  scard_get_attrib-seen given auto e =
      with_card-done env id h.slot _ _ k c h.found h.card
      ∙ rw (ne→== n scard_autoallocate auto) (
          bind-done (pp_exchange_msg net (λ t. direct lib) k.client_context m) _
            (some (arrived m y)) c (exchanged c r.0)
            (exchange_fixed lib env net h Command.get_attrib 4117 m y r.0 q.made (omega arith)
              (answer_len m z r.1 r.2 sized short)
              (handle_get_eq lib c.world.library z k attribute (attrib_room given n)
                (arrived-IsAttrib c.world.stack m _ k attribute _ q))))
      ∙ ap (λ o. done o (exchanged c r.0)) (reply-seen m z r.1 r.2 sized short r.0 given n e)
    where
      m : Bytes
      m = get_attrib_request k attribute given (some n)

      z : Bytes
      z = arrived c.world.stack m

      r : P × ℕ × Answer
      r = attrib_asked lib c.world.library k attribute given n

      y : Bytes
      y = attrib_answer z r.1 r.2

      q : IsAttrib Command.get_attrib k attribute (attrib_room given n) m
      q = get_request-IsAttrib k attribute given n

      room_le : (b : Bool) → attrib_room b n ≤ 4096
      room_le true = (fitting n).1
      room_le false = omega arith

      short : length r.2.bytes ≤ 4096
      short = le_trans (fits.attrib_fits c.world.library _ _ _) (room_le given)

      sized : msg_len z ≡ 4117
      sized = load32-arrived c.world.stack m 1 (omega (arith, q.made.size)) ∙ q.made.size

  -- `SCardSetAttrib` with a buffer of at most 4096 bytes passes exactly those on to the library, and
  -- its result back.
  pub scard_set_attrib-passed :
      (attr : Bytes)
      → n ≤ 4096
      → let r =
          lib.set_attrib c.world.library
            (sign_extend (word k.pcsc_handle))
            (word attribute)
            (load_bytes attr 0 n) in
        scard_set_attrib env net (λ t. direct lib) id attribute (some attr) n c
        ≡ done (word r.1) (exchanged c r.0)
  unfolding scard_set_attrib
  scard_set_attrib-passed attr l =
      with_card-done env id h.slot _ _ k c h.found h.card
      ∙ rw (le→ltb max_buffer_len n l) (
          exchange_rv-done net (λ t. direct lib) k.client_context m (arrived m y) getset_rv c
            (exchanged c r.0)
            (exchange_fixed lib env net h Command.set_attrib 4117 m y r.0 q.made (omega arith) len (
              handle_set_eq lib c.world.library z k attribute n (load_bytes attr 0 n)
                (arrived-IsAttrib c.world.stack m _ k attribute _ q) bytes)))
      ∙ ap (λ w. done w (exchanged c r.0))
          (load32-arrived m y getset_rv (omega (arith, len)) ∙ load32-store32 _ _ _)
    where
      m : Bytes
      m = set_attrib_request k attribute (some attr) n

      z : Bytes
      z = arrived c.world.stack m

      r : P × ℕ
      r =
          lib.set_attrib c.world.library (sign_extend (word k.pcsc_handle)) (word attribute)
            (load_bytes attr 0 n)

      y : Bytes
      y = store32 z getset_rv r.1

      q : IsAttrib Command.set_attrib k attribute n m
      q = set_request-IsAttrib k attribute attr n l

      len : msg_len y ≡ 4117
      len =
          past _ _ _ 1 (omega arith)
            (load32-arrived c.world.stack m 1 (omega (arith, q.made.size)) ∙ q.made.size)

      bytes : load_bytes z getset_attr n ≡ load_bytes attr 0 n
      bytes =
          load_bytes-arrived c.world.stack m 13 n (omega (arith, q.made.size))
          ∙ ap (load_bytes m 13) (sym (length-load_bytes attr 0 n))
          ∙ load_bytes-store_bytes _ 13 (load_bytes attr 0 n)
