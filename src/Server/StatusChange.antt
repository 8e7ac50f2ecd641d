-- ===== src/Server/StatusChange.antt =====
-- `handleGetStatusChange` of src/server/server.c: the reader states of the message are copied into
-- an array for the library and back.
use pcsc_proxy_android.Prelude.{
  ◌%◌, ℕ, zero, suc, ◌+◌, none, some, List, [], ◌∷◌, ltb, ◌==◌, if◌then◌else◌,
}
use pcsc_proxy_android.Memory.{Bytes, load32, store32, store_bytes, load_bytes}
use pcsc_proxy_android.Message.Layout.{max_atr_size, readerstate, size_of, offset_in}
use pcsc_proxy_android.Message.Fields.{
  getstatuschange_context, getstatuschange_timeout, getstatuschange_rv, getstatuschange_readers,
  getstatuschange_reader_states,
}
use pcsc_proxy_android.Server.Handlers.{pointer}
use pcsc_proxy_android.Server.Lengths.{clamp}
use pcsc_proxy_android.Server.Pcsc.{Pcsc, ReaderState}

-- the state at `o`, as the library gets it: the rest of its ATR buffer is zero
unfoldable pub read_state : Bytes → ℕ → ReaderState
read_state m o =
    let n = clamp max_atr_size (load32 m (o + offset_in readerstate 4)) in
    record {
      reader = if m o == 0 then none else some (pointer m o);
      current_state = load32 m (o + offset_in readerstate 1);
      event_state = load32 m (o + offset_in readerstate 2);
      cb_atr = n;
      rgb_atr = λ q. if ltb q n then m (o + offset_in readerstate 3 + q) else 0;
    }

-- the first loop
unfoldable pub read_states : ℕ → Bytes → ℕ → List ReaderState
read_states zero m o = []
read_states (suc n) m o = read_state m o ∷ read_states n m (o + size_of readerstate)

-- One round of the second loop; the name stays as it was sent. The library's length goes into a
-- `uint32_t` before it is compared with the room for it.
unfoldable pub write_state : Bytes → ℕ → ReaderState → Bytes
write_state m o s =
    let n = clamp max_atr_size (s.cb_atr % 0x100000000) in
    store_bytes
      (store32
        (store32 (store32 m (o + offset_in readerstate 1) s.current_state)
          (o + offset_in readerstate 2) s.event_state)
        (o + offset_in readerstate 4) n)
      (o + offset_in readerstate 3) (load_bytes s.rgb_atr 0 n)

-- the second loop, over as many states as there are readers
unfoldable pub write_states : ℕ → List ReaderState → Bytes → ℕ → Bytes
write_states zero ss m o = m
write_states (suc n) [] m o = m
write_states (suc n) (s ∷ ss) m o = write_states n ss (write_state m o s) (o + size_of readerstate)

module _ {P : Type 0} (lib : Pcsc P) where
  unfoldable pub handle_get_status_change : P → Bytes → P × Bytes
  unfolding read_states write_states
  handle_get_status_change p m =
      let n = load32 m getstatuschange_readers in
      let (p', res, states) =
        lib.get_status_change p (load32 m getstatuschange_context)
          (load32 m getstatuschange_timeout) (read_states n m getstatuschange_reader_states) in
      (p', store32 (write_states n states m getstatuschange_reader_states) getstatuschange_rv res)
