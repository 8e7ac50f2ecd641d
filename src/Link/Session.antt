-- ===== src/Link/Session.antt =====
-- A card session through client and service: any number of calls, one after the other.
use pcsc_proxy_android.Prelude.{
  ℕ, ◌≤◌, ◌<◌, ◌≡◌, ◌≢◌, true, Option, some, List, [], ◌∷◌, arith, length,
}
use pcsc_proxy_android.Memory.{Bytes, load_bytes}
use pcsc_proxy_android.Server.Pcsc.{Pcsc, IoRequest, sign_extend}
use pcsc_proxy_android.Client.State.{
  CardContext, ClientContext, Client, Environment, done, M, pure, ◌>>=◌,
}
use pcsc_proxy_android.Client.Tables.{pp_find_card}
use pcsc_proxy_android.Client.Exchange.{Network, context_at, card_at}
use pcsc_proxy_android.Link.{Service, direct}
use pcsc_proxy_android.Client.Calls.Card.{scard_reconnect}
use pcsc_proxy_android.Client.Calls.Buffers.{
  scard_autoallocate, StatusOut, ControlOut, TransmitOut, scard_status, scard_control,
  scard_transmit,
}
use pcsc_proxy_android.Client.Calls.Lists.{Filled, scard_get_attrib, scard_set_attrib}
use pcsc_proxy_android.Link.Calls.{word, exchanged, OnCard, CardCall, run_call, library_call}
use pcsc_proxy_android.Link.Answer.{transmission}
use pcsc_proxy_android.Link.Transmitted.{transmitted}
use pcsc_proxy_android.Link.Status.{status_asked, status_seen}
use pcsc_proxy_android.Link.Control.{control_asked, controlled}
use pcsc_proxy_android.Link.Attrib.{attrib_asked}
use pcsc_proxy_android.Link.AttribCalls.{attrib_seen}

module _ {W : Type 0} (c : Client W) (w : W) where
  abbrev elsewhere : Client W
  elsewhere = record c { world = w }

  find_card-elsewhere :
      (env : Environment) (id i : ℕ)
      → pp_find_card env id c ≡ done (some i) c
      → pp_find_card env id elsewhere ≡ done (some i) elsewhere
  unfolding pp_find_card
  find_card-elsewhere env id i e = ground arith

  card_at-elsewhere :
      (i : ℕ) (k : CardContext) → card_at i c ≡ done k c → card_at i elsewhere ≡ done k elsewhere
  unfolding card_at
  card_at-elsewhere i k e = ground arith

  context_at-elsewhere :
      (i : ℕ) (x : ClientContext)
      → context_at i c ≡ done x c
      → context_at i elsewhere ≡ done x elsewhere
  unfolding context_at
  context_at-elsewhere i x e = ground arith

pub exchanged-OnCard :
    {P : Type 0} (env : Environment) (id : ℕ) (k : CardContext) (c : Client (Service P)) (p : P)
    → OnCard env id k c
    → OnCard env id k (exchanged c p)
exchanged-OnCard env id k c p h = record {
  slot = h.slot;
  found = find_card-elsewhere c _ env id h.slot h.found;
  card = card_at-elsewhere c _ h.slot k h.card;
  tls = h.tls;
  chosen = h.chosen;
  context = h.context;
  owner = context_at-elsewhere c _ k.client_context h.context h.owner;
  session = h.session;
  connected = h.connected;
}

-- A call on a card, with what the application gives it. Buffers are there, and so is their length.
pub data CardDeed : Type 0 where
  words : CardCall → CardDeed
  reconnecting : (share preferred initialization : ℕ) → CardDeed
  asking_status : (reader_len atr_len : ℕ) → CardDeed
  controlling : (ccode : ℕ) → Bytes → (n room : ℕ) → CardDeed
  transmitting : IoRequest → Bytes → (n : ℕ) → Option IoRequest → (room : ℕ) → CardDeed
  getting : (attribute room : ℕ) → CardDeed
  setting : (attribute : ℕ) → Bytes → (n : ℕ) → CardDeed

-- what it brings the application
pub data Brought : Type 0 where
  brought_word : ℕ → Brought
  brought_protocol : ℕ → Option ℕ → Brought
  brought_status : StatusOut → Brought
  brought_control : ControlOut → Brought
  brought_bytes : TransmitOut → Brought
  brought_filled : Filled → Brought

-- The buffers that the calls take: within the bounds of the messages, and not `SCARD_AUTOALLOCATE`.
abbrev pub Allowed : CardDeed → Type 0
Allowed (words w) = Unit
Allowed (reconnecting share preferred initialization) = Unit
Allowed (asking_status n a) = (n ≢ scard_autoallocate) × (a ≢ scard_autoallocate)
Allowed (controlling ccode send n room) = n ≤ 4096
Allowed (transmitting pci send n recv room) = (4 ≤ n) × (n < 66523) × (room < 66523)
Allowed (getting attribute room) = room ≢ scard_autoallocate
Allowed (setting attribute attr n) = n ≤ 4096

abbrev pub AllAllowed : List CardDeed → Type 0
AllAllowed [] = Unit
AllAllowed (d ∷ ds) = Allowed d × AllAllowed ds

module _ {P : Type 0} (lib : Pcsc P) (env : Environment) (net : Network (Service P)) where
  -- the call, through the client
  abbrev pub perform : (id : ℕ) → CardDeed → M (Service P) Brought
  perform id (words w) = run_call lib env net w id >>= λ v. pure (brought_word v)
  perform id (reconnecting share preferred initialization) =
      scard_reconnect env net (λ t. direct lib) id share preferred initialization >>= λ v.
      pure (brought_protocol v.0 v.1)
  perform id (asking_status n a) =
      scard_status env net (λ t. direct lib) id (some n) (some a) >>= λ v. pure (brought_status v)
  perform id (controlling ccode send n room) =
      scard_control env net (λ t. direct lib) id ccode (some send) n room >>= λ v.
      pure (brought_control v)
  perform id (transmitting pci send n recv room) =
      scard_transmit env net (λ t. direct lib) id pci send n recv true (some room) >>= λ v.
      pure (brought_bytes v)
  perform id (getting attribute room) =
      scard_get_attrib env net (λ t. direct lib) id attribute true (some room) >>= λ v.
      pure (brought_filled v)
  perform id (setting attribute attr n) =
      scard_set_attrib env net (λ t. direct lib) id attribute (some attr) n >>= λ v.
      pure (brought_word v)

  -- the same call, made of the library itself
  abbrev pub library_deed : (id : ℕ) → CardContext → CardDeed → P → P × Brought
  library_deed id k (words w) p =
      let r = library_call lib env net w id k.pcsc_handle p in (r.0, brought_word (word r.1))
  library_deed id k (reconnecting share preferred initialization) p =
      let r =
        lib.reconnect p (sign_extend (word k.pcsc_handle)) (word share) (word preferred)
          (word initialization) in
      (r.0, brought_protocol (word r.1) (some (word r.2)))
  library_deed id k (asking_status n a) p =
      let r = status_asked lib p k n a in (r.0, brought_status (status_seen r))
  library_deed id k (controlling ccode send n room) p =
      let r = control_asked lib p k ccode send n room in (r.0, brought_control (controlled r))
  library_deed id k (transmitting pci send n recv room) p =
      let r = transmission lib p k pci send n recv room in
      (r.0, brought_bytes (transmitted r recv true))
  library_deed id k (getting attribute room) p =
      let r = attrib_asked lib p k attribute true room in (r.0, brought_filled (attrib_seen true r))
  library_deed id k (setting attribute attr n) p =
      let r =
        lib.set_attrib p (sign_extend (word k.pcsc_handle)) (word attribute)
          (load_bytes attr 0 n) in
      (r.0, brought_word (word r.1))

  -- What the library answers to the call says of each text or byte sequence as many bytes as it gives.
  -- Where room is short, a library that says how much it needs, and gives nothing, does not.
  abbrev pub Exact : (id : ℕ) → CardContext → CardDeed → P → Type 0
  Exact id k (asking_status n a) p =
      let r = status_asked lib p k n a in
      (r.2.reader.size ≡ length r.2.reader.bytes) × (r.2.atr.size ≡ length r.2.atr.bytes)
  Exact id k (controlling ccode send n room) p =
      let r = control_asked lib p k ccode send n room in r.2.size ≡ length r.2.bytes
  Exact id k (transmitting pci send n recv room) p =
      let r = transmission lib p k pci send n recv room in r.3.size ≡ length r.3.bytes
  Exact id k (getting attribute room) p =
      let r = attrib_asked lib p k attribute true room in r.2.size ≡ length r.2.bytes
  Exact id k _ p = Unit

  -- the same of every answer in a sequence of calls, each made of the library in the state in which
  -- the ones before have left it
  abbrev pub AllExact : (id : ℕ) → CardContext → List CardDeed → P → Type 0
  AllExact id k [] p = Unit
  AllExact id k (d ∷ ds) p = Exact id k d p × AllExact id k ds (library_deed id k d p).0

  unfoldable pub perform_all : (id : ℕ) → List CardDeed → M (Service P) (List Brought)
  perform_all id [] = pure []
  perform_all id (d ∷ ds) = perform id d >>= λ b. perform_all id ds >>= λ bs. pure (b ∷ bs)

  unfoldable pub library_all : (id : ℕ) → CardContext → List CardDeed → P → P × List Brought
  library_all id k [] p = (p, [])
  library_all id k (d ∷ ds) p =
      let r = library_deed id k d p in let rest = library_all id k ds r.0 in (rest.0, r.1 ∷ rest.1)
