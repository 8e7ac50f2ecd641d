-- ===== src/Client/Calls/Buffers.antt =====
-- `SCardStatus`, `SCardControl` and `SCardTransmit` of src/client/client.c. A pointer to an output is
-- given (`some`, with what it points to at the call) or NULL; in a result, `some` is what is stored
-- through it, whoever asked for it, and `none` is no store. Inputs are 64-bit words.
use pcsc_proxy_android.Prelude.{
  ℕ, ◌+◌, ◌-◌, ◌%◌, ◌^◌, Bool, ◌&&◌, Option, none, some, List, [], ltb, leb, ◌==◌, not,
  if◌then◌else◌,
}
use pcsc_proxy_android.Memory.{Bytes, load32, store32, store_bytes, load_bytes}
use pcsc_proxy_android.Message.Layout.{
  max_buffer_len, max_readername, max_atr_size, msg_size, status, control, transmit,
}
use pcsc_proxy_android.Message.Command.{Command}
use pcsc_proxy_android.Message.Fields.{
  status_card, status_reader_name, status_reader_len, status_state, status_protocol, status_atr,
  status_atr_len, status_rv, control_card, control_code, control_send_buffer, control_send_length,
  control_recv_buffer, control_recv_length, control_bytes_returned, control_rv, transmit_card,
  transmit_send_pci_protocol, transmit_send_pci_length, transmit_recv_pci_protocol,
  transmit_recv_pci_length, transmit_recv_length, transmit_rv, transmit_buffer_length,
  transmit_buffer,
}
use pcsc_proxy_android.Server.Pcsc.{IoRequest, scard_f_internal_error, scard_e_invalid_value}
use pcsc_proxy_android.Server.Lengths.{clamp, max_data_length}
use pcsc_proxy_android.Client.State.{CardContext, Tls, TlsOpts, Environment, M, pure, ◌>>=◌}
use pcsc_proxy_android.Client.Exchange.{Network, pp_exchange_msg}
use pcsc_proxy_android.Client.Calls.{request, with_card}

-- `(DWORD)(-1)`
abbrev pub scard_autoallocate : ℕ
scard_autoallocate = 2 ^ 64 - 1

-- what `SCardStatus` stores
pub record StatusOut : Type 0 where
  pub rv : ℕ
  pub state : Option ℕ
  pub protocol : Option ℕ
  pub reader : Option (List ℕ)
  pub reader_len : Option ℕ
  pub atr : Option (List ℕ)
  pub atr_len : Option ℕ

abbrev pub status_failed : ℕ → StatusOut
status_failed rv = record {
  rv = rv;
  state = none;
  protocol = none;
  reader = none;
  reader_len = none;
  atr = none;
  atr_len = none;
}

-- `if (n && n<=room) memmove(...)`
abbrev copied : Bytes → (place n room : ℕ) → Option (List ℕ)
copied m place n room = if not (n == 0) && leb n room then some (load_bytes m place n) else none

abbrev pub status_request : CardContext → (reader_len atr_len : ℕ) → Bytes
status_request k reader_len atr_len =
    store32
      (store32 (store32 (request Command.status (msg_size status)) status_card k.pcsc_handle)
        status_reader_len (clamp max_readername (reader_len % 2 ^ 32)))
      status_atr_len (clamp max_atr_size (atr_len % 2 ^ 32))

-- the outputs of a reply: first the words, then the name, then the ATR, each after its check
unfoldable pub status_reply : Bytes → (reader_len atr_len : ℕ) → StatusOut
status_reply m reader_len atr_len =
    let words = record (status_failed scard_f_internal_error) {
      state = some (load32 m status_state);
      protocol = some (load32 m status_protocol);
    } in
    let n = load32 m status_reader_len in
    let a = load32 m status_atr_len in
    let named = record words {
      reader = copied m status_reader_name n reader_len;
      reader_len = some n;
    } in
    if ltb max_readername n then words else if ltb max_atr_size a then named else record named {
      rv = load32 m status_rv;
      atr = copied m status_atr a atr_len;
      atr_len = some a;
    }

-- what `SCardControl` stores: the bytes at `pbRecvBuffer`, as many as the reply says
pub record ControlOut : Type 0 where
  pub rv : ℕ
  pub bytes : List ℕ
  pub returned : Option ℕ

abbrev pub control_request : CardContext → ℕ → Option Bytes → (send_length recv_length : ℕ) → Bytes
control_request k ccode send send_length recv_length =
    let m = store32 (request Command.control (msg_size control)) control_card k.pcsc_handle in
    let m' =
      store32 (store32 (store32 m control_code ccode) control_send_length send_length)
        control_recv_length (clamp max_buffer_len recv_length) in
    elim send [
      | none ↦ m'
      | some b ↦ store_bytes m' control_send_buffer (load_bytes b 0 send_length)
    ]

-- what `SCardTransmit` stores
pub record TransmitOut : Type 0 where
  pub rv : ℕ
  pub pci : Option IoRequest
  pub bytes : List ℕ
  pub length : Option ℕ

abbrev pub transmit_failed : ℕ → TransmitOut
transmit_failed rv = record { rv = rv; pci = none; bytes = []; length = none }

abbrev pub store_pci : Bytes → Option IoRequest → Bytes
store_pci m none = m
store_pci m (some q) =
    store32 (store32 m transmit_recv_pci_protocol q.protocol) transmit_recv_pci_length q.pci_length

abbrev pub transmit_request :
    CardContext → IoRequest → Bytes → ℕ → Option IoRequest → (room : ℕ) → Bytes
transmit_request k pci send send_length recv_pci room =
    let m =
      store32 (request Command.transmit (msg_size transmit + send_length - 1)) transmit_card
        k.pcsc_handle in
    let m' =
      store32
        (store32 (store32 m transmit_send_pci_protocol pci.protocol) transmit_send_pci_length
          pci.pci_length)
        transmit_buffer_length send_length in
    store32 (store_pci (store_bytes m' transmit_buffer (load_bytes send 0 send_length)) recv_pci)
      transmit_recv_length room

-- `given`: `pbRecvBuffer` is not NULL
unfoldable pub transmit_reply : Bytes → Option IoRequest → Bool → (room : ℕ) → TransmitOut
transmit_reply m recv_pci given room =
    let n = load32 m transmit_buffer_length in
    if ltb max_data_length n
    then transmit_failed scard_f_internal_error
    else if ltb room n
    then transmit_failed scard_f_internal_error
    else record {
      rv = load32 m transmit_rv;
      pci = elim recv_pci [
        | none ↦ none
        | some q ↦ some (record {
          protocol = load32 m transmit_recv_pci_protocol;
          pci_length = load32 m transmit_recv_pci_length;
        })
      ];
      bytes = if given then load_bytes m transmit_buffer n else [];
      length = some n;
    }

module _ {W : Type 0} (env : Environment) (net : Network W) (tls : Tls → TlsOpts W) where
  unfoldable pub scard_status : (card : ℕ) → (reader_len atr_len : Option ℕ) → M W StatusOut
  unfolding status_reply
  scard_status id reader_len atr_len = with_card env id (status_failed scard_e_invalid_value) λ j k.
      elim reader_len [
        | none ↦ pure (status_failed scard_e_invalid_value)
        | some n ↦
            if n == scard_autoallocate
            then pure (status_failed scard_f_internal_error)
            else elim atr_len [
              | none ↦ pure (status_failed scard_e_invalid_value)
              | some a ↦
                  if a == scard_autoallocate
                  then pure (status_failed scard_f_internal_error)
                  else (pp_exchange_msg net tls k.client_context (status_request k n a) >>= λ r.
                      elim r [
                        | none ↦ pure (status_failed scard_f_internal_error)
                        | some m ↦ pure (status_reply m n a)
                      ])
            ]
      ]

  unfoldable pub scard_control :
      (card ccode : ℕ) → Option Bytes → (send_length recv_length : ℕ) → M W ControlOut
  scard_control id ccode send send_length recv_length =
      with_card env id (record { rv = scard_e_invalid_value; bytes = []; returned = none })
        λ j k.
          if ltb max_buffer_len send_length
          then pure (record { rv = scard_e_invalid_value; bytes = []; returned = none })
          else (pp_exchange_msg net tls k.client_context
                (control_request k ccode send send_length recv_length)
              >>= λ r. elim r [
                | none ↦ pure (record { rv = scard_f_internal_error; bytes = []; returned = none })
                | some m ↦
                    let n = load32 m control_bytes_returned in
                    pure (record {
                      rv = load32 m control_rv;
                      bytes = load_bytes m control_recv_buffer n;
                      returned = some n;
                    })
              ])

  -- `room` is `*pcbRecvLength`. The application gives `pioSendPci` and `pbSendBuffer`, which are
  -- not tested.
  unfoldable pub scard_transmit :
      (card : ℕ)
      → IoRequest
      → Bytes
      → ℕ
      → Option IoRequest
      → Bool
      → (room : Option ℕ) → M W TransmitOut
  unfolding transmit_reply
  scard_transmit id pci send send_length recv_pci given room =
      with_card env id (transmit_failed scard_e_invalid_value) λ j k.
        if ltb max_data_length send_length
        then pure (transmit_failed scard_e_invalid_value)
        else if ltb send_length 4
        then pure (transmit_failed scard_e_invalid_value)
        else elim room [
          | none ↦ pure (transmit_failed scard_e_invalid_value)
          | some n ↦
              pp_exchange_msg net tls k.client_context
                (transmit_request k pci send send_length recv_pci n)
              >>= λ r. elim r [
                | none ↦ pure (transmit_failed scard_f_internal_error)
                | some m ↦ pure (transmit_reply m recv_pci given n)
              ]
        ]
