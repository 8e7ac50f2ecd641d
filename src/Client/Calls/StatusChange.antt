-- ===== src/Client/Calls/StatusChange.antt =====
-- `SCardGetStatusChange` of src/client/client.c.
use pcsc_proxy_android.Prelude.{
  ℕ, ◌+◌, ◌-◌, ◌%◌, ◌^◌, Option, none, some, List, [], ◌∷◌, length, take,
}
use pcsc_proxy_android.Memory.{Bytes, load32, store32, store_bytes, load_bytes}
use pcsc_proxy_android.Message.Layout.{
  max_readername, max_atr_size, msg_size, size_of, offset_in, getstatuschange, readerstate,
  header_len,
}
use pcsc_proxy_android.Message.Command.{Command}
use pcsc_proxy_android.Message.Fields.{
  getstatuschange_context, getstatuschange_timeout, getstatuschange_rv, getstatuschange_readers,
  getstatuschange_reader_states,
}
use pcsc_proxy_android.Server.Pcsc.{scard_f_internal_error}
use pcsc_proxy_android.Server.Lengths.{clamp}
use pcsc_proxy_android.Client.State.{ClientContext, Tls, TlsOpts, Environment, M, pure, ◌>>=◌}
use pcsc_proxy_android.Client.Exchange.{Network, pp_exchange_msg}
use pcsc_proxy_android.Client.Calls.{request, with_context}

-- `SCARD_READERSTATE` on the application's side: the name is the text in front of the zero byte.
pub record State : Type 0 where
  pub reader : Option (List ℕ)
  pub current_state : ℕ
  pub event_state : ℕ
  pub cb_atr : ℕ
  pub rgb_atr : Bytes

-- `strncpy(dst, name, sizeof(dst)-1)` into zeroed memory
abbrev pub store_name : Bytes → ℕ → Option (List ℕ) → Bytes
store_name m o none = m
store_name m o (some s) = store_bytes m o (take (max_readername - 1) s)

-- one round of the first loop; `o` is the place of the state in the message
unfoldable pub put_state : Bytes → ℕ → State → Bytes
put_state m o s =
    let n = clamp max_atr_size (s.cb_atr % 2 ^ 32) in
    let m' =
      store32
        (store32 (store32 (store_name m o s.reader) (o + offset_in readerstate 1) s.current_state)
          (o + offset_in readerstate 2) s.event_state)
        (o + offset_in readerstate 4) n in
    let m'' = store_bytes m' (o + offset_in readerstate 3) (load_bytes s.rgb_atr 0 n) in
    store32 m'' header_len (load32 m'' header_len + size_of readerstate)

-- The first loop. The message is not tested to hold that many.
unfoldable pub put_states : List State → Bytes → ℕ → Bytes
put_states [] m o = m
put_states (s ∷ ss) m o = put_states ss (put_state m o s) (o + size_of readerstate)

-- one round of the second loop; the name stays, and so does the ATR buffer behind `cb_atr`
unfoldable pub get_state : Bytes → ℕ → State → State
get_state m o s =
    let n = clamp max_atr_size (load32 m (o + offset_in readerstate 4)) in
    record s {
      current_state = load32 m (o + offset_in readerstate 1);
      event_state = load32 m (o + offset_in readerstate 2);
      cb_atr = n;
      rgb_atr = store_bytes s.rgb_atr 0 (load_bytes m (o + offset_in readerstate 3) n);
    }

-- the second loop
unfoldable pub get_states : Bytes → ℕ → List State → List State
get_states m o [] = []
get_states m o (s ∷ ss) = get_state m o s ∷ get_states m (o + size_of readerstate) ss

unfoldable pub status_change_request : ClientContext → ℕ → List State → Bytes
unfolding put_states
status_change_request x timeout states =
    let m =
      store32
        (store32
          (store32
            (request Command.get_status_change (msg_size getstatuschange - size_of readerstate))
            getstatuschange_context x.pcsc_context)
          getstatuschange_timeout timeout)
        getstatuschange_readers (length states) in
    put_states states m getstatuschange_reader_states

module _ {W : Type 0} (env : Environment) (net : Network W) (tls : Tls → TlsOpts W) where
  -- The second result is the application's array, `cReaders` states long. The test in front of the
  -- first loop, that one state fits, never fails: the header is 21 bytes long.
  unfoldable pub scard_get_status_change : (context timeout : ℕ) → List State → M W (ℕ × List State)
  unfolding get_states
  scard_get_status_change id timeout states =
      with_context env id (scard_f_internal_error, states)
        λ i x. pp_exchange_msg net tls i (status_change_request x timeout states) >>= λ r. elim r [
          | none ↦ pure (scard_f_internal_error, states)
          | some m ↦
              pure (load32 m getstatuschange_rv, get_states m getstatuschange_reader_states states)
        ]
