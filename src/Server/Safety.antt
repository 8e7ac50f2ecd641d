-- ===== src/Server/Safety.antt =====
-- The handlers write inside the message buffer and keep the type of the message.
use pcsc_proxy_android.Prelude.{
  ◌%◌, ℕ, zero, suc, ◌+◌, ◌*◌, ◌≤◌, ◌≡◌, refl, inl, inr, List, [], ◌∷◌, arith, length, ltb, ◌==◌,
  Bool-cases,
}
use native.Mathlib.Nat.{le_trans}
use pcsc_proxy_android.Memory.{Bytes, load32, store32, store_bytes}
use pcsc_proxy_android.Memory.Laws.{AgreeFrom, length-load_bytes}
use pcsc_proxy_android.Message.Layout.{
  max_message_len, max_buffer_len, max_atr_size, max_readername, readerstate, size_of, header_type,
}
use pcsc_proxy_android.Message.Fields.{
  status_reader_len, status_atr_len, listreaders_reader_len, listgroups_group_len,
  transmit_recv_length, listreaders_is_size_query_only, listgroups_is_size_query_only,
  transmit_buffer_length, getstatuschange_context, getstatuschange_timeout, getstatuschange_readers,
  control_recv_length, getset_attr_len, getstatuschange_reader_states,
}
use pcsc_proxy_android.Message.Command.{Command}
use pcsc_proxy_android.Server.Pcsc.{Pcsc, IsBounded, ReaderState}
use pcsc_proxy_android.Server.Frame.{Outside, keep32, keep_bytes}
use pcsc_proxy_android.Server.Handlers.{
  handle_establish_context, handle_release_context, handle_is_valid_context, handle_connect,
  handle_reconnect, handle_disconnect, handle_begin_transaction, handle_end_transaction,
  handle_cancel_transaction, handle_cancel,
}
use pcsc_proxy_android.Server.Lengths.{
  clamp, max_data_length, handle_status, handle_control, handle_transmit, transmit_checked,
  handle_get_attrib, handle_set_attrib, handle_list_readers, handle_list_groups,
}
use pcsc_proxy_android.Server.StatusChange.{
  read_states, write_state, write_states, handle_get_status_change,
}
use pcsc_proxy_android.Server.Dispatch.{handle}

clamp_le : (bound n : ℕ) → clamp bound n ≤ bound
clamp_le bound n = ground arith

write_state_frame :
    (m : Bytes) (o : ℕ) (s : ReaderState) {q k : ℕ}
    → Outside 1 q
    → 1 ≤ o
    → o + size_of readerstate ≤ max_message_len
    → m q ≡ k
    → write_state m o s q ≡ k
unfolding write_state
write_state_frame m o s h a b e =
    keep_bytes h _ _ _ (omega arith)
      (omega (
        arith,
        length-load_bytes s.rgb_atr 0 (clamp max_atr_size (s.cb_atr % 0x100000000)),
        clamp_le max_atr_size (s.cb_atr % 0x100000000),
      ))
      (keep32 h _ _ _ (omega arith) (omega arith)
        (keep32 h _ _ _ (omega arith) (omega arith) (keep32 h _ _ _ (omega arith) (omega arith) e)))

write_states_frame :
    (n : ℕ) (ss : List ReaderState) (m : Bytes) (o : ℕ) {q k : ℕ}
    → Outside 1 q
    → 1 ≤ o
    → o + size_of readerstate * n ≤ max_message_len
    → m q ≡ k
    → write_states n ss m o q ≡ k
unfolding write_states
write_states_frame zero ss m o h a b e = e
write_states_frame (suc n) [] m o h a b e = e
write_states_frame (suc n) (s ∷ ss) m o h a b e =
    write_states_frame n ss (write_state m o s) (o + size_of readerstate) h (omega arith)
      (omega arith) (write_state_frame m o s h a (omega arith) e)

-- The lengths in the request that the service uses unchecked.
abbrev pub IsModest : Command → Bytes → Type 0
IsModest Command.control m = load32 m control_recv_length ≤ max_buffer_len
IsModest Command.get_attrib m = load32 m getset_attr_len ≤ max_buffer_len
IsModest Command.get_status_change m = load32 m getstatuschange_readers ≤ 384
IsModest _ m = Unit {0}

module _ {P : Type 0} (lib : Pcsc P) (fits : IsBounded lib) {q : ℕ} (h : Outside 1 q) where
  -- A store of a word at a constant place of the payload.
  word : {k : ℕ} (m : Bytes) (o v : ℕ) → (1 ≤ o) × (o ≤ 60000) → m q ≡ k → store32 m o v q ≡ k
  word m o v a e = keep32 h m o v a.0 (omega arith) e

  -- A copy of bytes for which there is room.
  chunk :
      {k : ℕ} (m : Bytes) (o : ℕ) (xs : List ℕ) (room : ℕ)
      → length xs ≤ room
      → (1 ≤ o) × (o + room ≤ max_message_len)
      → m q ≡ k
      → store_bytes m o xs q ≡ k
  chunk m o xs room l a e = keep_bytes h m o xs a.0 (omega arith) e

  status_frame : (p : P) (m : Bytes) → (handle_status lib p m).1 q ≡ m q
  unfolding handle_status
  status_frame p m = word _ _ _ (omega arith) (
      word _ _ _ (omega arith) (
        word _ _ _ (omega arith) (
          word _ _ _ (omega arith) (
            word _ _ _ (omega arith) (
              chunk _ _ _ max_atr_size
                (le_trans (fits.atr_fits p _ _ _) (clamp_le max_atr_size (load32 m status_atr_len)))
                (omega arith)
                (chunk _ _ _ max_readername
                  (le_trans (fits.reader_fits p _ _ _)
                    (clamp_le max_readername (load32 m status_reader_len)))
                  (omega arith) refl))))))

  list_readers_frame : (p : P) (m : Bytes) → (handle_list_readers lib p m).1 q ≡ m q
  unfolding handle_list_readers
  list_readers_frame p m = elim (Bool-cases (load32 m listreaders_is_size_query_only == 0)) [
    | inl e ↦ rw e (
        word _ _ _ (omega arith) (
          word _ _ _ (omega arith) (
            word _ _ _ (omega arith) (
              chunk _ _ _ 66539
                (le_trans (fits.readers_fit p _ _)
                  (clamp_le 66539 (load32 m listreaders_reader_len)))
                (omega arith) refl))))
    | inr e ↦ rw e (word _ _ _ (omega arith) (word _ _ _ (omega arith) refl))
  ]

  list_groups_frame : (p : P) (m : Bytes) → (handle_list_groups lib p m).1 q ≡ m q
  unfolding handle_list_groups
  list_groups_frame p m = elim (Bool-cases (load32 m listgroups_is_size_query_only == 0)) [
    | inl e ↦ rw e (
        word _ _ _ (omega arith) (
          word _ _ _ (omega arith) (
            word _ _ _ (omega arith) (
              chunk _ _ _ 66539
                (le_trans (fits.groups_fit p _ _) (clamp_le 66539 (load32 m listgroups_group_len)))
                (omega arith) refl))))
    | inr e ↦ rw e (word _ _ _ (omega arith) (word _ _ _ (omega arith) refl))
  ]

  transmit_frame : (p : P) (m : Bytes) → (handle_transmit lib p m).1 q ≡ m q
  unfolding handle_transmit transmit_checked
  transmit_frame p m = elim (Bool-cases (ltb max_data_length (load32 m transmit_buffer_length))) [
    | inl e ↦ rw e (word _ _ _ (omega arith) (word _ _ _ (omega arith) refl))
    | inr e ↦ rw e (
        word _ _ _ (omega arith) (
          word _ _ _ (omega arith) (
            word _ _ _ (omega arith) (
              word _ _ _ (omega arith) (
                word _ _ _ (omega arith) (
                  chunk _ _ _ max_data_length
                    (le_trans (fits.transmit_fits p _ _ _ _ _)
                      (clamp_le max_data_length (load32 m transmit_recv_length)))
                    (omega arith) refl))))))
  ]

  handle_frame : (c : Command) (p : P) (m : Bytes) → IsModest c m → (handle lib c p m).1 q ≡ m q
  unfolding handle handle_establish_context handle_release_context handle_is_valid_context
      handle_connect handle_reconnect handle_disconnect handle_begin_transaction
      handle_end_transaction handle_cancel_transaction handle_cancel handle_control
      handle_get_attrib handle_set_attrib handle_get_status_change
  handle_frame Command.status p m s = status_frame p m
  handle_frame Command.transmit p m s = transmit_frame p m
  handle_frame Command.list_readers p m s = list_readers_frame p m
  handle_frame Command.list_groups p m s = list_groups_frame p m
  handle_frame Command.control p m s = word _ _ _ (omega arith) (
      word _ _ _ (omega arith)
        (chunk _ _ _ max_buffer_len (le_trans (fits.control_fits p _ _ _ _) s) (omega arith) refl))
  handle_frame Command.get_attrib p m s = word _ _ _ (omega arith) (
      word _ _ _ (omega arith)
        (chunk _ _ _ max_buffer_len (le_trans (fits.attrib_fits p _ _ _) s) (omega arith) refl))
  handle_frame Command.get_status_change p m s = word _ _ _ (omega arith) (
      write_states_frame (load32 m getstatuschange_readers)
        (lib.get_status_change p (load32 m getstatuschange_context)
          (load32 m getstatuschange_timeout)
          (read_states (load32 m getstatuschange_readers) m getstatuschange_reader_states)).2
        m getstatuschange_reader_states h (omega arith) (omega arith) refl)
  handle_frame Command.connect p m s =
      word _ _ _ (omega arith) (word _ _ _ (omega arith) (word _ _ _ (omega arith) refl))
  handle_frame Command.establish_context p m s =
      word _ _ _ (omega arith) (word _ _ _ (omega arith) refl)
  handle_frame Command.reconnect p m s = word _ _ _ (omega arith) (word _ _ _ (omega arith) refl)
  handle_frame Command.settimeout p m s = refl
  handle_frame _ p m s = word _ _ _ (omega arith) refl

-- Whatever a client asks for, a handler writes nothing behind the 65 KiB message buffer and keeps the
-- type of the message: given that the library writes no more than it is told fits, and that the
-- lengths which the service does not check (`IsModest`) are within the sizes of their arrays.
pub handle_safe :
    {P : Type 0} (lib : Pcsc P) (fits : IsBounded lib) (c : Command) (p : P) (m : Bytes)
    → IsModest c m
    → AgreeFrom max_message_len (handle lib c p m).1 m
      × ((handle lib c p m).1 header_type ≡ m header_type)
handle_safe lib fits c p m s = (
  λ q l. handle_frame lib fits (inr l) c p m s,
  handle_frame lib fits (inl (omega arith)) c p m s,
)
