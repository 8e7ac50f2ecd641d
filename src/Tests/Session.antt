-- ===== src/Tests/Session.antt =====
-- Calls that go from an application to the library and back.
use pcsc_proxy_android.Prelude.{◌≡◌, refl, some, none, List, [], ◌∷◌, arith}
use pcsc_proxy_android.Memory.{zeroed}
use pcsc_proxy_android.Client.State.{done}
use pcsc_proxy_android.Client.Calls.Buffers.{scard_status}
use pcsc_proxy_android.Client.Calls.StatusChange.{State}
use pcsc_proxy_android.Link.{direct}
use pcsc_proxy_android.Link.Calls.{exchanged, ending, beginning}
use pcsc_proxy_android.Link.Status.{status_asked, status_seen, scard_status-seen}
use pcsc_proxy_android.Link.Change.Changed.{Changed, scard_get_status_change-Changed}
use pcsc_proxy_android.Link.Session.{CardDeed, words, transmitting, asking_status}
use pcsc_proxy_android.Tests.Server.{counting, counting-IsBounded}
use pcsc_proxy_android.Tests.Client.{environment}
use pcsc_proxy_android.Tests.Link.{
  connected, card, context, no_network, connected-OnCard, connected-OnContext, pci, select,
  reader_name,
}

scard_status-seen_example :
    scard_status environment no_network
      (λ t. direct counting)
      942953097
      (some 100)
      (some 33)
      connected
    ≡ done (status_seen (status_asked counting 2 card 100 33)) (exchanged connected 3)
scard_status-seen_example =
    scard_status-seen counting counting-IsBounded environment no_network 942953097 card connected
      100 33 connected-OnCard ((λ e. omega arith), (λ e. omega arith)) (refl, refl)

-- two readers, "usb" and one without a name
abbrev states : List State
states =
    record {
      reader = some reader_name;
      current_state = 0;
      event_state = 0;
      cb_atr = 0;
      rgb_atr = zeroed;
    }
    ∷ record { reader = none; current_state = 16; event_state = 0; cb_atr = 2; rgb_atr = zeroed }
    ∷ []

scard_get_status_change-Changed_example :
    Changed counting environment no_network 2285130377 1000 context states connected
scard_get_status_change-Changed_example =
    scard_get_status_change-Changed counting environment no_network (λ p n t rs. refl) 2285130377
      1000 context states connected connected-OnContext (omega arith)
      ((λ x xs e. ground arith), ((λ x xs e. cc), tt))

abbrev deeds : List CardDeed
deeds =
    words beginning
    ∷ transmitting pci select 4 (some pci) 258
    ∷ asking_status 100 33
    ∷ words (ending 0)
    ∷ []
