-- ===== src/Tests/Server.antt =====
-- A library with one context, and a connection over which a client establishes it
-- (src/server/server.c).
use pcsc_proxy_android.Prelude.{
  length, take, length-take, ℕ, suc, ◌≡◌, refl, List, [], ◌∷◌, ◌++◌, arith, replicate, get_or, some,
  Bool, if◌then◌else◌,
}
use pcsc_proxy_android.Memory.{Bytes, zeroed, load32, store32, store_bytes, store8}
use pcsc_proxy_android.Memory.Laws.{AgreeFrom}
use pcsc_proxy_android.Message.Layout.{max_message_len, header_type, header_len}
use pcsc_proxy_android.Message.Command.{Command, command_of}
use pcsc_proxy_android.Transport.{RecvEvent, arrives, Reader, Writer, accepts}
use pcsc_proxy_android.Server.Pcsc.{Pcsc, IsBounded, Answer}
use pcsc_proxy_android.Server.Handlers.{handle_establish_context}
use pcsc_proxy_android.Server.Dispatch.{closed, Step, handle, answer, pp_handle_connection}
use pcsc_proxy_android.Server.Safety.{handle_safe}
use pcsc_proxy_android.Server.Loop.{nullenc_session, wire, finished, request, Serves-all, arrived}

abbrev nothing : Answer
nothing = record { bytes = []; size = 0 }

abbrev status_bytes : List ℕ
status_bytes = 0x90 ∷ 0 ∷ []

-- the status bytes of success, as far as there is room
abbrev success : ℕ → Answer
success room = record { bytes = take room status_bytes; size = length (take room status_bytes) }

-- one reader, "r", as far as there is room
abbrev reader_list : List ℕ
reader_list = b'r' ∷ 0 ∷ 0 ∷ []

abbrev found : Bool → ℕ → Answer
found given room =
    let l = take room reader_list in
    record { bytes = l; size = if given then length l else length reader_list }

-- The state counts the calls; a context is the count at which it was made.
abbrev pub counting : Pcsc ℕ
counting = record {
  establish_context = λ p scope. (suc p, 0, 7);
  release_context = λ p context. (suc p, 0);
  is_valid_context = λ p context. (suc p, 0);
  connect = λ p context reader share preferred. (suc p, 0, 8, 2);
  reconnect = λ p card share preferred initialization. (suc p, 0, 2);
  disconnect = λ p card disposition. (suc p, 0);
  begin_transaction = λ p card. (suc p, 0);
  end_transaction = λ p card disposition. (suc p, 0);
  cancel = λ p context. (suc p, 0);
  status = λ p card reader_room atr_room.
      (suc p, 0, record { reader = nothing; state = 4; protocol = 2; atr = nothing });
  get_status_change = λ p context timeout states. (suc p, 0, states);
  control = λ p card ccode xs room. (suc p, 0, nothing);
  transmit = λ p card send_pci xs recv_pci room. (suc p, 0, recv_pci, success room);
  get_attrib = λ p card attribute room. (suc p, 0, nothing);
  set_attrib = λ p card attribute xs. (suc p, 0);
  list_readers = λ p context given room. (suc p, 0, found given room);
  list_reader_groups = λ p context given room. (suc p, 0, found given room);
}

pub counting-IsBounded : IsBounded counting
counting-IsBounded = record {
  reader_fits = λ p card a b. omega arith;
  atr_fits = λ p card a b. omega arith;
  control_fits = λ p card ccode xs room. omega arith;
  transmit_fits = λ p card spci xs rpci room. omega (arith, length-take room status_bytes);
  attrib_fits = λ p card attribute room. omega arith;
  readers_fit = λ p context room. omega (arith, length-take room reader_list);
  groups_fit = λ p context room. omega (arith, length-take room reader_list);
}

-- a request for a context of scope 2: type 0, 17 bytes
abbrev pub asking : Bytes
asking q = get_or (0 ∷ 17 ∷ 0 ∷ 0 ∷ 0 ∷ 2 ∷ []) q 0

abbrev pub empty_stack : ℕ → Bytes
empty_stack n = zeroed

abbrev pub answered : Bytes
answered = (handle counting Command.establish_context 0 (arrived zeroed asking)).1

abbrev pub writer : Writer
writer = record { outbound = []; events = replicate 17 (accepts 1) }

abbrev pub reads : List RecvEvent
reads = replicate 18 (arrives 0)

handle_safe_example :
    AgreeFrom max_message_len (handle counting Command.establish_context 0 asking).1 asking
    × ((handle counting Command.establish_context 0 asking).1 header_type ≡ asking header_type)
handle_safe_example = handle_safe counting counting-IsBounded Command.establish_context 0 asking tt

pub asked : answer counting 0 (arrived zeroed asking) ≡ some (1, answered)
unfolding answer command_of handle handle_establish_context store_bytes load32
asked = refl

pub answered-len : load32 answered header_len ≡ 17
unfolding handle handle_establish_context store_bytes load32 store32 store8
answered-len = refl

Serves-all_example :
    (e : Step (Reader × Writer) ℕ) × (pp_handle_connection counting nullenc_session 2
        (record { inbound = wire (asking ∷ []); events = reads }, writer)
        0
        empty_stack
      ≡ some e)
    × (e.next ≡ closed)
    × (e.library ≡ 1)
    × (e.session.1.outbound ≡ [] ++ wire (answered ∷ []))
unfolding load32
Serves-all_example =
    Serves-all counting empty_stack 0 1 (asking ∷ []) (answered ∷ []) reads writer
      (request asked (finished 1)) (omega arith, omega arith, tt) (omega arith) (omega arith)
      (omega (arith, answered-len))

-- a peer that is gone
abbrev gone : Reader × Writer
gone = (record { inbound = []; events = reads }, writer)
