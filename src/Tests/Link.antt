-- ===== src/Tests/Link.antt =====
-- A client with one context and one card, connected to a service (src/client/client.c,
-- src/server/server.c).
use pcsc_proxy_android.Prelude.{
  List, arith, [], ◌∷◌, true, ◌==◌, if◌then◌else◌, ℕ, ◌≡◌, refl, ◌∷◌, none, some, replicate, false,
}
use pcsc_proxy_android.Memory.{zeroed}
use pcsc_proxy_android.Client.State.{
  ClientContext, CardContext, free_context, free_card, Client, nullenc, done,
}
use pcsc_proxy_android.Client.Tables.{pp_find_card}
use pcsc_proxy_android.Client.Slots.{find_slot}
use pcsc_proxy_android.Client.Exchange.{Network, context_at, card_at}
use pcsc_proxy_android.Link.{Service}
use pcsc_proxy_android.Link.Calls.{
  word, exchanged, OnCard, disconnecting, run_call, library_call, run_call-library_call,
}
use pcsc_proxy_android.Memory.{Bytes}
use pcsc_proxy_android.Server.Pcsc.{IoRequest, Pcsc}
use pcsc_proxy_android.Client.Calls.Buffers.{scard_transmit}
use pcsc_proxy_android.Link.{direct}
use pcsc_proxy_android.Link.Connected.{Connected, scard_connect-Connected}
use pcsc_proxy_android.Client.Slots.{free_slot, Numbered-replicate}
use pcsc_proxy_android.Client.State.{pp_card_magic, pp_context_magic}
use pcsc_proxy_android.Client.Tables.{card_id, context_id}
use pcsc_proxy_android.Client.Tables.Laws.{IsValid}
use pcsc_proxy_android.Prelude.{inr}
use pcsc_proxy_android.Link.Release.{OnContext, released, scard_release_context-released}
use pcsc_proxy_android.Client.Calls.Context.{scard_release_context}
use pcsc_proxy_android.Client.Tables.{pp_find_context}
use pcsc_proxy_android.Link.Answer.{transmission}
use pcsc_proxy_android.Link.Transmitted.{transmitted, scard_transmit-transmitted}
use pcsc_proxy_android.Client.Calls.Lists.{scard_list_readers}
use pcsc_proxy_android.Link.Listed.{scard_list_readers-listed}
use pcsc_proxy_android.Tests.Server.{counting, counting-IsBounded}
use pcsc_proxy_android.Tests.Client.{environment}

abbrev pub card : CardContext
card = record { id = 942953097; pcsc_handle = 8; client_context = 0 }

abbrev pub context : ClientContext
context = record { id = 2285130377; pcsc_context = 7; tls_context = some 0; tls_session = some 0 }

abbrev pub connected : Client (Service ℕ)
connected = record {
  contexts = some (context ∷ replicate 63 free_context);
  cards = some (card ∷ replicate 63 free_card);
  context_locked = false;
  card_locked = false;
  tlsopts = some nullenc;
  world = record { library = 2; stack = zeroed; reply = none };
}

abbrev pub no_network : Network (Service ℕ)
no_network = record { connect = λ w. done none w; close = λ w s. w }

pub connected-OnCard : OnCard environment 942953097 card connected
unfolding pp_find_card find_slot card_at context_at
connected-OnCard = record {
  slot = 0;
  found = refl;
  card = refl;
  tls = nullenc;
  chosen = refl;
  context = context;
  owner = refl;
  session = 0;
  connected = refl;
}

run_call-library_call_example :
    run_call counting environment no_network (disconnecting 1) 942953097 connected
    ≡ done (word (library_call counting environment no_network (disconnecting 1) 942953097 8 2).1) (
        exchanged connected
          (library_call counting environment no_network (disconnecting 1) 942953097 8 2).0)
run_call-library_call_example =
    run_call-library_call counting environment no_network (disconnecting 1) 942953097 card connected
      connected-OnCard

abbrev pub pci : IoRequest
pci = record { protocol = 1; pci_length = 16 }

-- the command 00 A4 04 00
abbrev pub select : Bytes
select q = if q == 1 then 0xa4 else if q == 2 then 4 else 0

scard_transmit-transmitted_example :
    scard_transmit environment no_network
      (λ t. direct counting)
      942953097
      pci
      select
      4
      (some pci)
      true
      (some 258)
      connected
    ≡ done
        (transmitted (transmission counting 2 card pci select 4 (some pci) 258) (some pci) true)
        (exchanged connected (transmission counting 2 card pci select 4 (some pci) 258).0)
scard_transmit-transmitted_example =
    scard_transmit-transmitted counting counting-IsBounded environment no_network 942953097 card
      connected pci select 4 (some pci) true 258 connected-OnCard (omega arith) (omega arith) refl
      (omega arith)

-- what that stands for
transmission_answer :
    transmitted (transmission counting 2 card pci select 4 (some pci) 258) (some pci) true
    ≡ record { rv = 0; pci = some pci; bytes = 0x90 ∷ 0 ∷ []; length = some 2 }
transmission_answer = refl

pub connected-OnContext : OnContext environment 2285130377 context connected
unfolding pp_find_context find_slot
connected-OnContext = record {
  slot = 0;
  below = omega arith;
  table = context ∷ replicate 63 free_context;
  contexts = refl;
  unlocked = refl;
  found = refl;
  at_slot = refl;
  number = refl;
  tls = nullenc;
  chosen = refl;
  session = 0;
  connected = refl;
  secured = 0;
  tls_there = refl;
}

-- the service's context number is not known to this library
abbrev unknowing : Pcsc ℕ
unknowing = record counting { release_context = λ p number. (p, 0x80100003) }

scard_release_context-released_example :
    scard_release_context environment no_network (λ k. direct unknowing) 2285130377 connected
    ≡ done 0 (
        released unknowing environment refl no_network connected connected-OnContext.table
          connected-OnContext.slot context 2)
scard_release_context-released_example =
    scard_release_context-released unknowing environment refl no_network 2285130377 context
      connected connected-OnContext

connected-IsValid : IsValid connected
connected-IsValid = record {
  contexts_open = refl;
  cards_open = refl;
  contexts_table =
      (refl, (inr refl, Numbered-replicate context_id pp_context_magic 1 63 free_context refl));
  cards_table = (refl, (inr refl, Numbered-replicate card_id pp_card_magic 1 63 free_card refl));
}

-- "usb"
abbrev pub reader_name : List ℕ
reader_name = b'u' ∷ b's' ∷ b'b' ∷ []

scard_connect-Connected_example :
    Connected counting environment refl no_network 2285130377 context reader_name 2 3 connected
unfolding free_slot
scard_connect-Connected_example =
    scard_connect-Connected counting environment refl no_network 2285130377 1 context reader_name 2
      3 connected connected-IsValid connected-OnContext refl refl (omega arith) refl

scard_list_readers-listed_example :
    scard_list_readers environment no_network
      (λ k. direct counting)
      2285130377
      true
      (some 100)
      connected
    ≡ done
        (record { rv = 0; bytes = some (b'r' ∷ 0 ∷ 0 ∷ []); length = none })
        (exchanged connected 3)
scard_list_readers-listed_example =
    scard_list_readers-listed counting counting-IsBounded environment no_network 2285130377 100
      context true connected connected-OnContext (omega arith) (λ g. (refl, omega arith))
