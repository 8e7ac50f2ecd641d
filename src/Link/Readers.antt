-- ===== src/Link/Readers.antt =====
-- `SCardListReaders` and `SCardListReaderGroups` from the application's buffer to the library and back:
-- their messages differ in the type only.
use pcsc_proxy_android.Prelude.{
  ℕ, ◌+◌, ◌-◌, ◌≤◌, ◌<◌, ◌≡◌, refl, ◌∙◌, ap, inr, Bool, true, false, if◌then◌else◌, none, some,
  arith, length, le→ltb,
}
use pcsc_proxy_android.Memory.{Bytes, load32, store32, store_bytes, load_bytes}
use pcsc_proxy_android.Memory.Laws.{
  load_bytes_eq, load_bytes-store_bytes, load32-store32, store32_outside,
}
use pcsc_proxy_android.Message.Layout.{header_type, header_len}
use pcsc_proxy_android.Message.Fields.{
  listreaders_context, listreaders_reader_len, listreaders_is_size_query_only, listreaders_rv,
  listreaders_reader,
}
use pcsc_proxy_android.Message.Command.{Command, code}
use pcsc_proxy_android.Server.Pcsc.{Pcsc, Answer, sign_extend}
use pcsc_proxy_android.Server.Lengths.{clamp, handle_list_readers, handle_list_groups}
use pcsc_proxy_android.Server.Dispatch.{handle}
use pcsc_proxy_android.Server.Loop.{arrived, msg_len}
use pcsc_proxy_android.Client.State.{ClientContext}
use pcsc_proxy_android.Client.Calls.Lists.{
  ListKind, Filled, readers_kind, list_request, list_reply, data_length,
}
use pcsc_proxy_android.Link.Words.{
  load32-arrived, arrived_byte, IsRequest, request-IsRequest, store32-IsRequest,
}
use pcsc_proxy_android.Link.Transmit.{past}
use pcsc_proxy_android.Link.Calls.{word}

-- the room for the list in a message
abbrev pub list_room : ℕ
list_room = 66539

-- the places of `listReadersStruct` in a message of type `cmd`; with `list_groups` they are those of
-- `listGroupsStruct`
abbrev pub list_kind : Command → ListKind
list_kind cmd = record readers_kind { command = cmd }

-- What the service finds in a request for the list.
pub record IsListing (cmd : Command) (x : ClientContext) (given : Bool) (n : ℕ) (m : Bytes)
    : Type 0 where
  pub kind : m header_type ≡ code cmd
  pub size : msg_len m ≡ 21
  pub context : load32 m listreaders_context ≡ word x.pcsc_context
  pub room : load32 m listreaders_reader_len ≡ clamp list_room n
  pub query : load32 m listreaders_is_size_query_only ≡ (if given then 0 else 1)

fitting_room : (n : ℕ) → n < 2147483648 → word (data_length list_room n) ≡ clamp list_room n
fitting_room n h = ground arith

query_word : (given : Bool) → word (if given then 0 else 1) ≡ (if given then 0 else 1)
query_word true = refl
query_word false = refl

pub list_request-IsListing :
    (cmd : Command) (x : ClientContext) (given : Bool) (n : ℕ)
    → n < 2147483648
    → IsListing cmd x given n (list_request (list_kind cmd) x given n)
list_request-IsListing cmd x given n h = record {
  kind = q.kind;
  size = q.size;
  context =
      past _ 13 _ 5 (inr (omega arith)) (past _ 9 _ 5 (inr (omega arith)) (load32-store32 _ _ _));
  room = past _ 13 _ 9 (inr (omega arith)) (load32-store32 _ _ _ ∙ fitting_room n h);
  query = load32-store32 _ _ _ ∙ query_word given;
}
  where
    q : IsRequest cmd 21 (list_request (list_kind cmd) x given n)
    q = store32-IsRequest _ _ _ _ _ (omega arith) (
        store32-IsRequest _ _ _ _ _ (omega arith)
          (store32-IsRequest _ _ _ _ _ (omega arith) (request-IsRequest cmd 21 (omega arith))))

pub arrived-IsListing :
    (stack m : Bytes) (cmd : Command) (x : ClientContext) (given : Bool) (n : ℕ)
    → IsListing cmd x given n m
    → IsListing cmd x given n (arrived stack m)
arrived-IsListing stack m cmd x given n t = record {
  kind = arrived_byte stack m 0 (omega (arith, t.size)) ∙ t.kind;
  size = at 1 (omega arith) ∙ t.size;
  context = at 5 (omega arith) ∙ t.context;
  room = at 9 (omega arith) ∙ t.room;
  query = at 13 (omega arith) ∙ t.query;
}
  where
    at : (o : ℕ) → o + 4 ≤ 21 → load32 (arrived stack m) o ≡ load32 m o
    at o h = load32-arrived stack m o (omega (arith, t.size))

-- the library's function for a list
abbrev pub ListCall : Type 0 → Type 0
ListCall P = P → (context : ℕ) → Bool → (room : ℕ) → P × ℕ × Answer

-- What the client asks of the library.
abbrev pub asked_list : {P : Type 0} → ListCall P → P → ClientContext → Bool → ℕ → P × ℕ × Answer
asked_list f p x given n = f p (sign_extend (word x.pcsc_context)) given (clamp list_room n)

abbrev pub listing : {P : Type 0} → Pcsc P → P → ClientContext → Bool → ℕ → P × ℕ × Answer
listing lib = asked_list lib.list_readers

abbrev pub group_listing : {P : Type 0} → Pcsc P → P → ClientContext → Bool → ℕ → P × ℕ × Answer
group_listing lib = asked_list lib.list_reader_groups

-- the message after the library's answer: the list and its length, or the length alone
abbrev pub list_answer : Bytes → Bool → ℕ → Answer → Bytes
list_answer z true res a =
    let m1 = store32 (store_bytes z listreaders_reader a.bytes) listreaders_reader_len a.size in
    store32 (store32 m1 header_len (22 + a.size - 1)) listreaders_rv res
list_answer z false res a = store32 (store32 z listreaders_reader_len a.size) listreaders_rv res

clamp_twice : (n : ℕ) → clamp list_room (clamp list_room n) ≡ clamp list_room n
clamp_twice n = ground arith

-- What a handler of lists does with a request.
abbrev pub Lists : {P : Type 0} → Pcsc P → Command → ListCall P → Type 0
Lists {P} lib cmd f =
    (p : P) (z : Bytes) (x : ClientContext) (given : Bool) (n : ℕ)
    → IsListing cmd x given n z
    → let r = asked_list f p x given n in handle lib cmd p z ≡ (r.0, list_answer z given r.1 r.2)

module _ {P : Type 0} (lib : Pcsc P) where
  pub handle_list_readers-Lists : Lists lib Command.list_readers lib.list_readers
  unfolding handle handle_list_readers
  handle_list_readers-Lists p z x true n t =
      rw (t.query, handle_list_readers) (rw t.context (rw t.room (rw (clamp_twice n) refl)))
  handle_list_readers-Lists p z x false n t =
      rw (t.query, handle_list_readers) (rw t.context (rw t.room refl))

  pub handle_list_groups-Lists : Lists lib Command.list_groups lib.list_reader_groups
  unfolding handle handle_list_groups
  handle_list_groups-Lists p z x true n t =
      rw (t.query, handle_list_groups) (rw t.context (rw t.room (rw (clamp_twice n) refl)))
  handle_list_groups-Lists p z x false n t =
      rw (t.query, handle_list_groups) (rw t.context (rw t.room refl))

-- What the client finds in the answer.
pub record IsListed (given : Bool) (res : ℕ) (a : Answer) (m : Bytes) : Type 0 where
  pub size : msg_len m ≡ (if given then 21 + a.size else 21)
  pub count : load32 m listreaders_reader_len ≡ word a.size
  pub result : load32 m listreaders_rv ≡ word res
  pub bytes : given ≡ true → load_bytes m listreaders_reader a.size ≡ a.bytes

pub list_answer-IsListed :
    (z : Bytes) (given : Bool) (res : ℕ) (a : Answer)
    → msg_len z ≡ 21
    → (given ≡ true → (a.size ≡ length a.bytes) × (a.size < list_room))
    → IsListed given res a (list_answer z given res a)
list_answer-IsListed z true res a s h = record {
  size = past _ _ _ 1 (omega arith) (load32-store32 _ _ _ ∙ omega (arith, h refl));
  count = past _ _ _ 9 (omega arith) (past _ _ _ 9 (omega arith) (load32-store32 _ _ _));
  result = load32-store32 _ _ _;
  bytes = λ g.
      load_bytes_eq _ (store_bytes z 21 a.bytes) 21 a.size (λ q l u.
        store32_outside _ 17 _ q (omega arith)
        ∙ store32_outside _ 1 _ q (omega arith)
        ∙ store32_outside _ 9 _ q (omega arith))
      ∙ ap (load_bytes (store_bytes z 21 a.bytes) 21) (h refl).0
      ∙ load_bytes-store_bytes z 21 a.bytes;
}
list_answer-IsListed z false res a s h = record {
  size = past _ _ _ 1 (omega arith) (past _ _ _ 1 (omega arith) s);
  count = past _ _ _ 9 (omega arith) (load32-store32 _ _ _);
  result = load32-store32 _ _ _;
  bytes = λ g. cc;
}

pub arrived-IsListed :
    (m y : Bytes) (given : Bool) (res : ℕ) (a : Answer)
    → IsListed given res a y
    → IsListed given res a (arrived m y)
arrived-IsListed m y true res a t = record {
  size = at 1 (omega arith) ∙ t.size;
  count = at 9 (omega arith) ∙ t.count;
  result = at 17 (omega arith) ∙ t.result;
  bytes = λ g.
      load_bytes_eq (arrived m y) y 21 a.size (λ q l u. arrived_byte m y q (omega (arith, t.size)))
      ∙ t.bytes g;
}
  where
    at : (o : ℕ) → o + 4 ≤ 21 → load32 (arrived m y) o ≡ load32 y o
    at o h = load32-arrived m y o (omega (arith, t.size))
arrived-IsListed m y false res a t = record {
  size = at 1 (omega arith) ∙ t.size;
  count = at 9 (omega arith) ∙ t.count;
  result = at 17 (omega arith) ∙ t.result;
  bytes = λ g. cc;
}
  where
    at : (o : ℕ) → o + 4 ≤ 21 → load32 (arrived m y) o ≡ load32 y o
    at o h = load32-arrived m y o (omega (arith, t.size))

-- What `SCardListReaders` gives the application of the library's answer `r`.
abbrev pub listed : {P : Type 0} → P × ℕ × Answer → Bool → Filled
listed r true = record { rv = word r.1; bytes = some r.2.bytes; length = none }
listed r false = record { rv = word r.1; bytes = none; length = some (word r.2.size) }

pub reply-listed :
    {P : Type 0} (cmd : Command) (r : P × ℕ × Answer) (given : Bool) (room : ℕ) (m : Bytes)
    → IsListed given r.1 r.2 m
    → (given ≡ true → (r.2.size ≤ room) × (r.2.size < list_room))
    → list_reply (list_kind cmd) m given room ≡ listed r given
unfolding list_reply
reply-listed cmd r true room m t h =
    rw (t.count ∙ small, le→ltb room r.2.size (h refl).0, t.result, t.bytes refl) refl
  where
    small : word r.2.size ≡ r.2.size
    small = omega (arith, h refl)
reply-listed cmd r false room m t h = rw (t.count, t.result) refl
