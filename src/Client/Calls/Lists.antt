-- ===== src/Client/Calls/Lists.antt =====
-- `SCardGetAttrib`, `SCardSetAttrib`, `SCardListReaders` and `SCardListReaderGroups` of
-- src/client/client.c; inputs and results as in Buffers.
use pcsc_proxy_android.Prelude.{
  ℕ, ◌-◌, ◌%◌, ◌^◌, Bool, false, Option, none, some, List, ltb, ◌==◌, if◌then◌else◌, min,
}
use pcsc_proxy_android.Memory.{Bytes, load32, store32, store_bytes, load_bytes}
use pcsc_proxy_android.Message.Layout.{
  max_message_len, max_buffer_len, msg_size, getset, listreaders, listgroups,
}
use pcsc_proxy_android.Message.Command.{Command}
use pcsc_proxy_android.Message.Fields.{
  getset_card, getset_attr_id, getset_attr, getset_attr_len, getset_rv, listreaders_context,
  listreaders_reader_len, listreaders_is_size_query_only, listreaders_rv, listreaders_reader,
  listgroups_context, listgroups_group_len, listgroups_is_size_query_only, listgroups_rv,
  listgroups_group,
}
use pcsc_proxy_android.Server.Pcsc.{scard_f_internal_error, scard_e_invalid_value}
use pcsc_proxy_android.Server.Lengths.{clamp}
use pcsc_proxy_android.Client.State.{
  ClientContext, CardContext, Tls, TlsOpts, Environment, M, pure, ◌>>=◌,
}
use pcsc_proxy_android.Client.Exchange.{Network, pp_exchange_msg}
use pcsc_proxy_android.Client.Calls.{request, with_card, with_context, exchange_rv}
use pcsc_proxy_android.Client.Calls.Buffers.{scard_autoallocate}

-- A result: the `LONG`, the bytes copied into the buffer, and what is stored as the length.
pub record Filled : Type 0 where
  pub rv : ℕ
  pub bytes : Option (List ℕ)
  pub length : Option ℕ

abbrev refused : ℕ → Filled
refused rv = record { rv = rv; bytes = none; length = none }

-- `cbAttrLen` stays 0 where a buffer or its length is not given.
abbrev pub get_attrib_request : CardContext → ℕ → Bool → Option ℕ → Bytes
get_attrib_request k attribute given room =
    let m =
      store32 (store32 (request Command.get_attrib (msg_size getset)) getset_card k.pcsc_handle)
        getset_attr_id attribute in
    elim room [
      | none ↦ m
      | some n ↦ if given then store32 m getset_attr_len (clamp max_buffer_len n) else m
    ]

abbrev pub set_attrib_request : CardContext → ℕ → Option Bytes → ℕ → Bytes
set_attrib_request k attribute attr n =
    let m =
      store32 (store32 (request Command.set_attrib (msg_size getset)) getset_card k.pcsc_handle)
        getset_attr_id attribute in
    elim attr [
      | none ↦ m
      | some b ↦ store_bytes (store32 m getset_attr_len n) getset_attr (load_bytes b 0 n)
    ]

-- `*pcbAttrLen` is overwritten before it is compared with, so that as many bytes are copied as the
-- reply says.
unfoldable pub get_attrib_reply : Bytes → Bool → Option ℕ → Filled
get_attrib_reply m given room =
    let n = load32 m getset_attr_len in
    elim room [
      | none ↦ record { rv = load32 m getset_rv; bytes = none; length = none }
      | some was ↦ record {
        rv = load32 m getset_rv;
        bytes = if given then some (load_bytes m getset_attr (min n n)) else none;
        length = some n;
      }
    ]

-- `int dataLength`, as it is stored into the message: a number from 2 ^ 31 on is negative and
-- passes the test.
abbrev pub data_length : (bound n : ℕ) → ℕ
data_length bound n = let d = n % 2 ^ 32 in if ltb d (2 ^ 31) then clamp bound d else d

-- the lists of readers and of groups: type, length and the places of the fields
pub record ListKind : Type 0 where
  pub command : Command
  pub fixed : ℕ
  pub context_place : ℕ
  pub len_place : ℕ
  pub query_place : ℕ
  pub rv_place : ℕ
  pub text_place : ℕ

abbrev pub readers_kind : ListKind
readers_kind = record {
  command = Command.list_readers;
  fixed = msg_size listreaders - 1;
  context_place = listreaders_context;
  len_place = listreaders_reader_len;
  query_place = listreaders_is_size_query_only;
  rv_place = listreaders_rv;
  text_place = listreaders_reader;
}

abbrev pub groups_kind : ListKind
groups_kind = record {
  command = Command.list_groups;
  fixed = msg_size listgroups - 1;
  context_place = listgroups_context;
  len_place = listgroups_group_len;
  query_place = listgroups_is_size_query_only;
  rv_place = listgroups_rv;
  text_place = listgroups_group;
}

abbrev pub list_request : ListKind → ClientContext → Bool → ℕ → Bytes
list_request l x given n =
    let m = store32 (request l.command l.fixed) l.context_place x.pcsc_context in
    store32 (store32 m l.len_place (data_length (max_message_len - l.fixed) n)) l.query_place
      (if given then 0 else 1)

unfoldable pub list_reply : ListKind → Bytes → Bool → ℕ → Filled
list_reply l m given room =
    let n = load32 m l.len_place in
    if given
    then (if ltb room n then refused scard_f_internal_error else record {
      rv = load32 m l.rv_place;
      bytes = some (load_bytes m l.text_place n);
      length = none;
    })
    else record { rv = load32 m l.rv_place; bytes = none; length = some n }

module _ {W : Type 0} (env : Environment) (net : Network W) (tls : Tls → TlsOpts W) where
  unfoldable pub scard_get_attrib : (card attribute : ℕ) → Bool → Option ℕ → M W Filled
  unfolding get_attrib_reply
  scard_get_attrib id attribute given room = with_card env id (refused scard_e_invalid_value) λ j k.
      if elim room as (λ o. Bool) [ none ↦ false | some n ↦ n == scard_autoallocate ]
      then pure (refused scard_f_internal_error)
      else (pp_exchange_msg net tls k.client_context (get_attrib_request k attribute given room)
          >>= λ r. elim r [
            | none ↦ pure (refused scard_f_internal_error)
            | some m ↦ pure (get_attrib_reply m given room)
          ])

  unfoldable pub scard_set_attrib : (card attribute : ℕ) → Option Bytes → ℕ → M W ℕ
  scard_set_attrib id attribute attr n = with_card env id scard_e_invalid_value λ j k.
      if ltb max_buffer_len n
      then pure scard_e_invalid_value
      else exchange_rv net tls k.client_context (set_attrib_request k attribute attr n) getset_rv

  -- the text that `SCardListReaders` and `SCardListReaderGroups` share
  unfoldable pub list_call : ListKind → (context : ℕ) → Bool → Option ℕ → M W Filled
  unfolding list_reply
  list_call l id given room = with_context env id (refused scard_f_internal_error) λ i x.
      elim room [
        | none ↦ pure (refused scard_e_invalid_value)
        | some n ↦
            if n == scard_autoallocate
            then pure (refused scard_f_internal_error)
            else (pp_exchange_msg net tls i (list_request l x given n) >>= λ r. elim r [
              | none ↦ pure (refused scard_f_internal_error)
              | some m ↦ pure (list_reply l m given n)
            ])
      ]

  unfoldable pub scard_list_readers : (context : ℕ) → Bool → Option ℕ → M W Filled
  unfolding list_call
  scard_list_readers = list_call readers_kind

  unfoldable pub scard_list_reader_groups : (context : ℕ) → Bool → Option ℕ → M W Filled
  unfolding list_call
  scard_list_reader_groups = list_call groups_kind
