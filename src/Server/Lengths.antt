-- ===== src/Server/Lengths.antt =====
-- The handlers of src/server/server.c whose messages carry buffers.
use pcsc_proxy_android.Prelude.{ℕ, ◌+◌, ◌-◌, true, false, ltb, ◌==◌, if◌then◌else◌}
use pcsc_proxy_android.Memory.{Bytes, load32, store32, store_bytes, load_bytes}
use pcsc_proxy_android.Message.Layout.{
  max_message_len, max_readername, max_atr_size, header_len, msg_size, transmit, listreaders,
  listgroups,
}
use pcsc_proxy_android.Message.Fields.{
  status_card, status_reader_name, status_reader_len, status_state, status_protocol, status_atr,
  status_atr_len, status_rv, transmit_card, transmit_send_pci_protocol, transmit_send_pci_length,
  transmit_recv_pci_protocol, transmit_recv_pci_length, transmit_recv_length, transmit_rv,
  transmit_buffer_length, transmit_buffer, control_card, control_code, control_send_buffer,
  control_send_length, control_recv_buffer, control_recv_length, control_bytes_returned, control_rv,
  getset_card, getset_attr_id, getset_attr, getset_attr_len, getset_rv, listreaders_context,
  listreaders_reader_len, listreaders_is_size_query_only, listreaders_rv, listreaders_reader,
  listgroups_context, listgroups_group_len, listgroups_is_size_query_only, listgroups_rv,
  listgroups_group,
}
use pcsc_proxy_android.Server.Pcsc.{Pcsc, CardStatus, sign_extend, scard_f_internal_error}

-- the most that fits behind the fixed part of `s_transmit`
abbrev pub max_data_length : ℕ
max_data_length = max_message_len - (msg_size transmit - 1)

-- `if (n > bound) n = bound;`
abbrev pub clamp : ℕ → ℕ → ℕ
clamp bound n = if ltb bound n then bound else n

-- the outputs of `SCardStatus`, in the order in which the handler stores them
abbrev pub store_status : Bytes → CardStatus → Bytes
store_status m s =
    let m1 = store_bytes (store_bytes m status_reader_name s.reader.bytes) status_atr s.atr.bytes in
    store32
      (store32 (store32 (store32 m1 status_reader_len s.reader.size) status_state s.state)
        status_protocol s.protocol)
      status_atr_len s.atr.size

module _ {P : Type 0} (lib : Pcsc P) where
  unfoldable pub handle_status : P → Bytes → P × Bytes
  handle_status p m =
      let (p', res, s) =
        lib.status p (sign_extend (load32 m status_card))
          (clamp max_readername (load32 m status_reader_len))
          (clamp max_atr_size (load32 m status_atr_len)) in
      (p', store32 (store_status m s) status_rv res)

  unfoldable pub handle_control : P → Bytes → P × Bytes
  handle_control p m =
      let (p', res, a) =
        lib.control p (sign_extend (load32 m control_card)) (load32 m control_code)
          (load_bytes m control_send_buffer (load32 m control_send_length))
          (load32 m control_recv_length) in
      (
        p',
        store32 (store32 (store_bytes m control_recv_buffer a.bytes) control_bytes_returned a.size)
            control_rv res,
      )

  -- the part of `handleTransmit` behind the length check
  unfoldable pub transmit_checked : P → Bytes → P × Bytes
  transmit_checked p m =
      let (p', res, pci, a) =
        lib.transmit p (sign_extend (load32 m transmit_card))
          (record {
            protocol = load32 m transmit_send_pci_protocol;
            pci_length = load32 m transmit_send_pci_length;
          })
          (load_bytes m transmit_buffer (load32 m transmit_buffer_length))
          (record {
            protocol = load32 m transmit_recv_pci_protocol;
            pci_length = load32 m transmit_recv_pci_length;
          })
          (clamp max_data_length (load32 m transmit_recv_length)) in
      let m1 = store32 (store_bytes m transmit_buffer a.bytes) transmit_buffer_length a.size in
      let m2 =
        store32 (store32 m1 transmit_recv_pci_protocol pci.protocol) transmit_recv_pci_length
          pci.pci_length in
      let m3 = store32 m2 header_len (msg_size transmit + load32 m2 transmit_buffer_length - 1) in
      (p', store32 m3 transmit_rv res)

  unfoldable pub handle_transmit : P → Bytes → P × Bytes
  unfolding transmit_checked
  handle_transmit p m =
      if ltb max_data_length (load32 m transmit_buffer_length)
      then (
        p,
        store32 (store32 m header_len (msg_size transmit - 1)) transmit_rv scard_f_internal_error,
      )
      else transmit_checked p m

  unfoldable pub handle_get_attrib : P → Bytes → P × Bytes
  handle_get_attrib p m =
      let (p', res, a) =
        lib.get_attrib p (sign_extend (load32 m getset_card)) (load32 m getset_attr_id)
          (load32 m getset_attr_len) in
      (
        p',
        store32 (store32 (store_bytes m getset_attr a.bytes) getset_attr_len a.size) getset_rv res,
      )

  unfoldable pub handle_set_attrib : P → Bytes → P × Bytes
  handle_set_attrib p m =
      let (p', res) =
        lib.set_attrib p (sign_extend (load32 m getset_card)) (load32 m getset_attr_id)
          (load_bytes m getset_attr (load32 m getset_attr_len)) in
      (p', store32 m getset_rv res)

  unfoldable pub handle_list_readers : P → Bytes → P × Bytes
  handle_list_readers p m =
      if load32 m listreaders_is_size_query_only == 0
      then (let (p', res, a) =
            lib.list_readers p (sign_extend (load32 m listreaders_context)) true (
              clamp (max_message_len - (msg_size listreaders - 1))
                (load32 m listreaders_reader_len)) in
          let m1 =
            store32 (store_bytes m listreaders_reader a.bytes) listreaders_reader_len a.size in
          (
            p',
            store32 (store32 m1 header_len (msg_size listreaders + a.size - 1)) listreaders_rv res,
          ))
      else (let (p', res, a) =
            lib.list_readers p (sign_extend (load32 m listreaders_context)) false
              (load32 m listreaders_reader_len) in
          (p', store32 (store32 m listreaders_reader_len a.size) listreaders_rv res))

  unfoldable pub handle_list_groups : P → Bytes → P × Bytes
  handle_list_groups p m =
      if load32 m listgroups_is_size_query_only == 0
      then (let (p', res, a) =
            lib.list_reader_groups p (sign_extend (load32 m listgroups_context)) true (
              clamp (max_message_len - (msg_size listgroups - 1))
                (load32 m listgroups_group_len)) in
          let m1 = store32 (store_bytes m listgroups_group a.bytes) listgroups_group_len a.size in
          (
            p',
            store32 (store32 m1 header_len (msg_size listgroups + a.size - 1)) listgroups_rv res,
          ))
      else (let (p', res, a) =
            lib.list_reader_groups p (sign_extend (load32 m listgroups_context)) false
              (load32 m listgroups_group_len) in
          (p', store32 (store32 m listgroups_group_len a.size) listgroups_rv res))
