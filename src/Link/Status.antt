-- ===== src/Link/Status.antt =====
-- `SCardStatus` from the application to the library and back.
use pcsc_proxy_android.Prelude.{
  ℕ, ◌+◌, ◌≤◌, ◌<◌, ◌≡◌, ◌≢◌, refl, ◌∙◌, ap, Option, none, some, List, [], ◌∷◌, arith, length, Bool,
  true, false, leb, ◌==◌, if◌then◌else◌, le→ltb, le→leb, ne→==, not, ◌&&◌, ◌⊎◌,
}
use native.Mathlib.Nat.{le_trans}
use pcsc_proxy_android.Memory.{Bytes, load32, store32, store_bytes, load_bytes}
use pcsc_proxy_android.Memory.Laws.{
  load_bytes_eq, load_bytes-store_bytes, load32-store32, store32_outside, store_bytes_outside,
}
use pcsc_proxy_android.Message.Layout.{max_readername, max_atr_size}
use pcsc_proxy_android.Message.Fields.{
  status_card, status_reader_name, status_reader_len, status_state, status_protocol, status_atr,
  status_atr_len, status_rv,
}
use pcsc_proxy_android.Message.Command.{Command}
use pcsc_proxy_android.Server.Pcsc.{Pcsc, CardStatus, IsBounded, sign_extend}
use pcsc_proxy_android.Server.Lengths.{clamp, store_status, handle_status}
use pcsc_proxy_android.Server.Dispatch.{handle}
use pcsc_proxy_android.Server.Loop.{arrived, msg_len}
use pcsc_proxy_android.Client.State.{CardContext, Client, Environment, done, bind-done}
use pcsc_proxy_android.Client.Exchange.{Network, pp_exchange_msg}
use pcsc_proxy_android.Client.Calls.{with_card-done}
use pcsc_proxy_android.Client.Calls.Buffers.{
  scard_autoallocate, StatusOut, status_request, status_reply, scard_status,
}
use pcsc_proxy_android.Link.{Service, direct}
use pcsc_proxy_android.Link.Words.{load32-arrived, IsRequest, request-IsRequest, store32-IsRequest}
use pcsc_proxy_android.Link.Calls.{word, OnCard, exchanged}
use pcsc_proxy_android.Link.Transmit.{past}
use pcsc_proxy_android.Link.Fixed.{beside, load_bytes-arrived, exchange_fixed}

-- What the client asks of the library, for buffers of `n` and `a` bytes.
abbrev pub status_asked : {P : Type 0} → Pcsc P → P → CardContext → (n a : ℕ) → P × ℕ × CardStatus
status_asked lib p k n a =
    lib.status p (sign_extend (word k.pcsc_handle)) (clamp max_readername (word n))
      (clamp max_atr_size (word a))

pub status_request-IsRequest :
    (k : CardContext) (n a : ℕ) → IsRequest Command.status 190 (status_request k n a)
status_request-IsRequest k n a = store32-IsRequest _ _ _ _ _ (omega arith) (
    store32-IsRequest _ _ _ _ _ (omega arith) (
      store32-IsRequest _ _ _ _ _ (omega arith)
        (request-IsRequest Command.status 190 (omega arith))))

clamped : (b n : ℕ) → b < 256 → clamp b (word (clamp b (word n))) ≡ clamp b (word n)
clamped b n h = ground arith

module _ {P : Type 0} (lib : Pcsc P) where
  handle_status_eq :
      (p : P) (stack : Bytes) (k : CardContext) (n a : ℕ)
      → let r = status_asked lib p k n a in
        let z = arrived stack (status_request k n a) in
        handle lib Command.status p z ≡ (r.0, store32 (store_status z r.2) status_rv r.1)
  unfolding handle handle_status
  handle_status_eq p stack k n a =
      ap
        (λ (w : ℕ × ℕ × ℕ).
          let r =
            lib.status p (sign_extend w.0) (clamp max_readername w.1) (clamp max_atr_size w.2) in
          (r.0, store32 (store_status z r.2) status_rv r.1))
        (λ i. (card i, reader i, atr i))
      ∙ ap
          (λ (w : ℕ × ℕ).
            let r = lib.status p (sign_extend (word k.pcsc_handle)) w.0 w.1 in
            (r.0, store32 (store_status z r.2) status_rv r.1))
          (λ i. (clamped max_readername n (omega arith) i, clamped max_atr_size a (omega arith) i))
    where
      z : Bytes
      z = arrived stack (status_request k n a)

      at : (o : ℕ) → o + 4 ≤ 190 → load32 z o ≡ load32 (status_request k n a) o
      at o h =
          load32-arrived stack (status_request k n a) o
            (omega (arith, (status_request-IsRequest k n a).size))

      card : load32 z status_card ≡ word k.pcsc_handle
      card =
          at status_card (omega arith)
          ∙ past _ _ _ _ (omega arith) (past _ _ _ _ (omega arith) (load32-store32 _ _ _))

      reader : load32 z status_reader_len ≡ word (clamp max_readername (word n))
      reader =
          at status_reader_len (omega arith) ∙ past _ _ _ _ (omega arith) (load32-store32 _ _ _)

      atr : load32 z status_atr_len ≡ word (clamp max_atr_size (word a))
      atr = at status_atr_len (omega arith) ∙ load32-store32 _ _ _

-- What a message holds that carries the result `res` and the status `s`.
pub record IsStatus (res : ℕ) (s : CardStatus) (m : Bytes) : Type 0 where
  pub size : msg_len m ≡ 190
  pub name : load_bytes m status_reader_name (length s.reader.bytes) ≡ s.reader.bytes
  pub name_len : load32 m status_reader_len ≡ word s.reader.size
  pub state : load32 m status_state ≡ word s.state
  pub protocol : load32 m status_protocol ≡ word s.protocol
  pub atr : load_bytes m status_atr (length s.atr.bytes) ≡ s.atr.bytes
  pub atr_len : load32 m status_atr_len ≡ word s.atr.size
  pub result : load32 m status_rv ≡ word res

-- The buffers are no longer than their fields.
abbrev Fit : CardStatus → Type 0
Fit s = (length s.reader.bytes ≤ 128) × (length s.atr.bytes ≤ 33)

store_status-IsStatus :
    (z : Bytes) (res : ℕ) (s : CardStatus)
    → msg_len z ≡ 190
    → Fit s
    → IsStatus res s (store32 (store_status z s) status_rv res)
store_status-IsStatus z res s e f = record {
  size =
      words 1 (omega arith)
        (beside _ status_atr _ 1 (omega arith) (beside _ status_reader_name _ 1 (omega arith) e));
  name =
      load_bytes_eq y (store_bytes z status_reader_name s.reader.bytes) status_reader_name
        (length s.reader.bytes)
        (λ q l u. bytes q (omega arith) ∙ store_bytes_outside _ _ _ q (omega arith))
      ∙ load_bytes-store_bytes z status_reader_name s.reader.bytes;
  name_len = past _ _ _ _ (omega arith) (
      past _ _ _ _ (omega arith)
        (past _ _ _ _ (omega arith) (past _ _ _ _ (omega arith) (load32-store32 _ _ _))));
  state =
      past _ _ _ _ (omega arith)
        (past _ _ _ _ (omega arith) (past _ _ _ _ (omega arith) (load32-store32 _ _ _)));
  protocol = past _ _ _ _ (omega arith) (past _ _ _ _ (omega arith) (load32-store32 _ _ _));
  atr =
      load_bytes_eq y both status_atr (length s.atr.bytes) (λ q l u. bytes q (omega arith))
      ∙ load_bytes-store_bytes (store_bytes z status_reader_name s.reader.bytes) status_atr
          s.atr.bytes;
  atr_len = past _ _ _ _ (omega arith) (load32-store32 _ _ _);
  result = load32-store32 _ _ _;
}
  where
    both : Bytes
    both = store_bytes (store_bytes z status_reader_name s.reader.bytes) status_atr s.atr.bytes

    y : Bytes
    y = store32 (store_status z s) status_rv res

    words : {v : ℕ} (q : ℕ) → q + 4 ≤ 137 → load32 both q ≡ v → load32 y q ≡ v
    words q h k = past _ _ _ q (omega arith) (
        past _ _ _ q (omega arith)
          (past _ _ _ q (omega arith) (past _ _ _ q (omega arith) (past _ _ _ q (omega arith) k))))

    bytes : (q : ℕ) → (q < 137) ⊎ ((149 ≤ q) × (q < 182)) → y q ≡ both q
    bytes q h =
        store32_outside _ status_rv _ q (omega arith)
        ∙ store32_outside _ status_atr_len _ q (omega arith)
        ∙ store32_outside _ status_protocol _ q (omega arith)
        ∙ store32_outside _ status_state _ q (omega arith)
        ∙ store32_outside _ status_reader_len _ q (omega arith)

arrived-IsStatus :
    (m y : Bytes) (res : ℕ) (s : CardStatus)
    → Fit s
    → IsStatus res s y
    → IsStatus res s (arrived m y)
arrived-IsStatus m y res s f t = record {
  size = at 1 (omega arith) ∙ t.size;
  name = load_bytes-arrived m y _ _ (omega (arith, t.size)) ∙ t.name;
  name_len = at status_reader_len (omega arith) ∙ t.name_len;
  state = at status_state (omega arith) ∙ t.state;
  protocol = at status_protocol (omega arith) ∙ t.protocol;
  atr = load_bytes-arrived m y _ _ (omega (arith, t.size)) ∙ t.atr;
  atr_len = at status_atr_len (omega arith) ∙ t.atr_len;
  result = at status_rv (omega arith) ∙ t.result;
}
  where
    at : (o : ℕ) → o + 4 ≤ 190 → load32 (arrived m y) o ≡ load32 y o
    at o h = load32-arrived m y o (omega (arith, t.size))

-- A buffer that stays as it was where nothing is copied.
abbrev pub delivered : List ℕ → Option (List ℕ)
delivered [] = none
delivered (b ∷ bs) = some (b ∷ bs)

-- What `SCardStatus` gives the application of the library's answer.
abbrev pub status_seen : {P : Type 0} → P × ℕ × CardStatus → StatusOut
status_seen (p, res, s) = record {
  rv = word res;
  state = some (word s.state);
  protocol = some (word s.protocol);
  reader = delivered s.reader.bytes;
  reader_len = some (length s.reader.bytes);
  atr = delivered s.atr.bytes;
  atr_len = some (length s.atr.bytes);
}

passing :
    {A : Type 0} (u w : A) (b b' : Bool)
    → b ≡ false
    → b' ≡ true
    → (if not b && b' then u else w) ≡ u
passing u w true b' e f = cc
passing u w false true e f = refl
passing u w false false e f = cc

-- the copy of a buffer of which the reply tells the length
copied-delivered :
    (m : Bytes) (o v room : ℕ) (xs : List ℕ)
    → load_bytes m o (length xs) ≡ xs
    → v ≡ length xs
    → length xs ≤ room
    → (if not (v == 0) && leb v room then some (load_bytes m o v) else none) ≡ delivered xs
copied-delivered m o v room [] a e h = rw e refl
copied-delivered m o v room (x ∷ xs) a e h =
    passing (some (load_bytes m o v)) none (v == 0) (leb v room) (ne→== v 0 (omega (arith, e)))
      (le→leb v room (omega (arith, e, h)))
    ∙ ap some (ap (load_bytes m o) e ∙ a)

reply-seen :
    {P : Type 0} (r : P × ℕ × CardStatus) (n a : ℕ) (m : Bytes)
    → IsStatus r.1 r.2 m
    → Fit r.2
    → (r.2.reader.size ≡ length r.2.reader.bytes) × (r.2.atr.size ≡ length r.2.atr.bytes)
    → (length r.2.reader.bytes ≤ n) × (length r.2.atr.bytes ≤ a)
    → status_reply m n a ≡ status_seen r
unfolding status_reply
reply-seen (p, res, s) n a m t f e h =
    rw
      (
        le→ltb max_readername (load32 m status_reader_len) (omega (arith, named)),
        le→ltb max_atr_size (load32 m status_atr_len) (omega (arith, given)),
      )
      (λ i. record {
        rv = t.result i;
        state = some (t.state i);
        protocol = some (t.protocol i);
        reader =
            copied-delivered m status_reader_name (load32 m status_reader_len) n s.reader.bytes
              t.name named h.0 i;
        reader_len = some (named i);
        atr =
            copied-delivered m status_atr (load32 m status_atr_len) a s.atr.bytes t.atr given h.1 i;
        atr_len = some (given i);
      })
  where
    named : load32 m status_reader_len ≡ length s.reader.bytes
    named = t.name_len ∙ omega (arith, e.0, f.0)

    given : load32 m status_atr_len ≡ length s.atr.bytes
    given = t.atr_len ∙ omega (arith, e.1, f.1)

clamp_le : (b n : ℕ) → (clamp b (word n) ≤ b) × (clamp b (word n) ≤ n)
clamp_le b n = ground arith

module _ {P : Type 0} (lib : Pcsc P) (fits : IsBounded lib) (env : Environment)
    (net : Network (Service P)) where
  -- `SCardStatus` on a connected card, with both buffers sized by numbers other than
  -- `SCARD_AUTOALLOCATE`, and against a library that reports the lengths of the texts it gives: the
  -- library at the other end is asked once, for the handle that the card notes, for at most as much
  -- as fits the buffers and the fields of the message; the application gets its result, the state and
  -- the protocol as 32-bit words, and exactly its name and ATR with their lengths; nothing else of the
  -- client changes.
  pub scard_status-seen :
      (id : ℕ) (k : CardContext) (c : Client (Service P)) (n a : ℕ)
      → OnCard env id k c
      → (n ≢ scard_autoallocate) × (a ≢ scard_autoallocate)
      → let r = status_asked lib c.world.library k n a in
        (r.2.reader.size ≡ length r.2.reader.bytes) × (r.2.atr.size ≡ length r.2.atr.bytes)
        → scard_status env net (λ t. direct lib) id (some n) (some a) c
          ≡ done (status_seen r) (exchanged c r.0)
  unfolding scard_status
  scard_status-seen id k c n a h auto e =
      with_card-done env id h.slot _ _ k c h.found h.card
      ∙ rw (ne→== n scard_autoallocate auto.0, ne→== a scard_autoallocate auto.1)
          (bind-done (pp_exchange_msg net (λ t. direct lib) k.client_context m) _
            (some (arrived m y)) c (exchanged c r.0)
            (exchange_fixed lib env net h Command.status 190 m y r.0
              (status_request-IsRequest k n a) (omega arith) t.size
              (handle_status_eq lib c.world.library c.world.stack k n a)))
      ∙ ap (λ o. done o (exchanged c r.0))
          (reply-seen r n a (arrived m y) (arrived-IsStatus m y r.1 r.2 fit t) fit e room)
    where
      m : Bytes
      m = status_request k n a

      z : Bytes
      z = arrived c.world.stack m

      r : P × ℕ × CardStatus
      r = status_asked lib c.world.library k n a

      y : Bytes
      y = store32 (store_status z r.2) status_rv r.1

      room : (length r.2.reader.bytes ≤ n) × (length r.2.atr.bytes ≤ a)
      room = (
        le_trans (fits.reader_fits c.world.library _ _ _) (clamp_le max_readername n).1,
        le_trans (fits.atr_fits c.world.library _ _ _) (clamp_le max_atr_size a).1,
      )

      fit : Fit r.2
      fit = (
        le_trans (fits.reader_fits c.world.library _ _ _) (clamp_le max_readername n).0,
        le_trans (fits.atr_fits c.world.library _ _ _) (clamp_le max_atr_size a).0,
      )

      t : IsStatus r.1 r.2 y
      t =
          store_status-IsStatus z r.1 r.2
            (load32-arrived c.world.stack m 1 (omega (arith, (status_request-IsRequest k n a).size))
              ∙ (status_request-IsRequest k n a).size)
            fit
