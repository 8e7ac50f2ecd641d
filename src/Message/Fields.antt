-- ===== src/Message/Fields.antt =====
-- The places of the payload fields that the client and the server name, one constant for each
-- member access of the form `msg->connectStruct.hCard`.
use pcsc_proxy_android.Prelude.{ℕ}
use pcsc_proxy_android.Message.Layout.{
  field, establish, release, isvalid, settimeout, connect, reconnect, disconnect, begin, end,
  cancel, status, getstatuschange, transmit, control, getset, listreaders, listgroups,
}

abbrev pub establish_scope : ℕ
establish_scope = field establish 0

abbrev pub establish_context : ℕ
establish_context = field establish 1

abbrev pub establish_rv : ℕ
establish_rv = field establish 2

abbrev pub release_context : ℕ
release_context = field release 0

abbrev pub release_rv : ℕ
release_rv = field release 1

abbrev pub isvalid_context : ℕ
isvalid_context = field isvalid 0

abbrev pub isvalid_rv : ℕ
isvalid_rv = field isvalid 1

abbrev pub settimeout_context : ℕ
settimeout_context = field settimeout 0

abbrev pub settimeout_timeout : ℕ
settimeout_timeout = field settimeout 1

abbrev pub settimeout_rv : ℕ
settimeout_rv = field settimeout 2

abbrev pub connect_context : ℕ
connect_context = field connect 0

abbrev pub connect_reader : ℕ
connect_reader = field connect 1

abbrev pub connect_share_mode : ℕ
connect_share_mode = field connect 2

abbrev pub connect_preferred_protocols : ℕ
connect_preferred_protocols = field connect 3

abbrev pub connect_card : ℕ
connect_card = field connect 4

abbrev pub connect_active_protocol : ℕ
connect_active_protocol = field connect 5

abbrev pub connect_rv : ℕ
connect_rv = field connect 6

abbrev pub reconnect_card : ℕ
reconnect_card = field reconnect 0

abbrev pub reconnect_share_mode : ℕ
reconnect_share_mode = field reconnect 1

abbrev pub reconnect_preferred_protocols : ℕ
reconnect_preferred_protocols = field reconnect 2

abbrev pub reconnect_initialization : ℕ
reconnect_initialization = field reconnect 3

abbrev pub reconnect_active_protocol : ℕ
reconnect_active_protocol = field reconnect 4

abbrev pub reconnect_rv : ℕ
reconnect_rv = field reconnect 5

abbrev pub disconnect_card : ℕ
disconnect_card = field disconnect 0

abbrev pub disconnect_disposition : ℕ
disconnect_disposition = field disconnect 1

abbrev pub disconnect_rv : ℕ
disconnect_rv = field disconnect 2

abbrev pub begin_card : ℕ
begin_card = field begin 0

abbrev pub begin_rv : ℕ
begin_rv = field begin 1

abbrev pub end_card : ℕ
end_card = field end 0

abbrev pub end_disposition : ℕ
end_disposition = field end 1

abbrev pub end_rv : ℕ
end_rv = field end 2

abbrev pub cancel_card : ℕ
cancel_card = field cancel 0

abbrev pub cancel_rv : ℕ
cancel_rv = field cancel 1

abbrev pub status_card : ℕ
status_card = field status 0

abbrev pub status_reader_name : ℕ
status_reader_name = field status 1

abbrev pub status_reader_len : ℕ
status_reader_len = field status 2

abbrev pub status_state : ℕ
status_state = field status 3

abbrev pub status_protocol : ℕ
status_protocol = field status 4

abbrev pub status_atr : ℕ
status_atr = field status 5

abbrev pub status_atr_len : ℕ
status_atr_len = field status 6

abbrev pub status_rv : ℕ
status_rv = field status 7

abbrev pub getstatuschange_context : ℕ
getstatuschange_context = field getstatuschange 0

abbrev pub getstatuschange_timeout : ℕ
getstatuschange_timeout = field getstatuschange 1

abbrev pub getstatuschange_rv : ℕ
getstatuschange_rv = field getstatuschange 2

abbrev pub getstatuschange_readers : ℕ
getstatuschange_readers = field getstatuschange 3

abbrev pub getstatuschange_reader_states : ℕ
getstatuschange_reader_states = field getstatuschange 4

abbrev pub transmit_card : ℕ
transmit_card = field transmit 0

abbrev pub transmit_send_pci_protocol : ℕ
transmit_send_pci_protocol = field transmit 1

abbrev pub transmit_send_pci_length : ℕ
transmit_send_pci_length = field transmit 2

abbrev pub transmit_recv_pci_protocol : ℕ
transmit_recv_pci_protocol = field transmit 3

abbrev pub transmit_recv_pci_length : ℕ
transmit_recv_pci_length = field transmit 4

abbrev pub transmit_recv_length : ℕ
transmit_recv_length = field transmit 5

abbrev pub transmit_rv : ℕ
transmit_rv = field transmit 6

abbrev pub transmit_buffer_length : ℕ
transmit_buffer_length = field transmit 7

abbrev pub transmit_buffer : ℕ
transmit_buffer = field transmit 8

abbrev pub control_card : ℕ
control_card = field control 0

abbrev pub control_code : ℕ
control_code = field control 1

abbrev pub control_send_buffer : ℕ
control_send_buffer = field control 2

abbrev pub control_send_length : ℕ
control_send_length = field control 3

abbrev pub control_recv_buffer : ℕ
control_recv_buffer = field control 4

abbrev pub control_recv_length : ℕ
control_recv_length = field control 5

abbrev pub control_bytes_returned : ℕ
control_bytes_returned = field control 6

abbrev pub control_rv : ℕ
control_rv = field control 7

abbrev pub getset_card : ℕ
getset_card = field getset 0

abbrev pub getset_attr_id : ℕ
getset_attr_id = field getset 1

abbrev pub getset_attr : ℕ
getset_attr = field getset 2

abbrev pub getset_attr_len : ℕ
getset_attr_len = field getset 3

abbrev pub getset_rv : ℕ
getset_rv = field getset 4

abbrev pub listreaders_context : ℕ
listreaders_context = field listreaders 0

abbrev pub listreaders_reader_len : ℕ
listreaders_reader_len = field listreaders 1

abbrev pub listreaders_is_size_query_only : ℕ
listreaders_is_size_query_only = field listreaders 2

abbrev pub listreaders_rv : ℕ
listreaders_rv = field listreaders 3

abbrev pub listreaders_reader : ℕ
listreaders_reader = field listreaders 4

abbrev pub listgroups_context : ℕ
listgroups_context = field listgroups 0

abbrev pub listgroups_group_len : ℕ
listgroups_group_len = field listgroups 1

abbrev pub listgroups_is_size_query_only : ℕ
listgroups_is_size_query_only = field listgroups 2

abbrev pub listgroups_rv : ℕ
listgroups_rv = field listgroups 3

abbrev pub listgroups_group : ℕ
listgroups_group = field listgroups 4
