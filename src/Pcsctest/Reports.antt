-- ===== src/Pcsctest/Reports.antt =====
-- What a library has to answer for a list to be printed by src/client/pcsctest.c, and what stays of a
-- context over the calls before it.
use pcsc_proxy_android.Prelude.{ℕ, ◌<◌, ◌≡◌, ◌∙◌, sym, ◌⊎◌, true, false, some, List, length, arith}
use pcsc_proxy_android.Server.Pcsc.{Answer}
use pcsc_proxy_android.Client.State.{ClientContext, Client, Environment, done, pp_context_magic}
use pcsc_proxy_android.Client.Slots.{find_slot, slot_number, Found}
use pcsc_proxy_android.Client.Tables.{context_id, located}
use pcsc_proxy_android.Client.Tables.Laws.{find_context_eq}
use pcsc_proxy_android.Link.{Service}
use pcsc_proxy_android.Link.Calls.{word, exchanged}
use pcsc_proxy_android.Link.Release.{OnContext}
use pcsc_proxy_android.Link.Readers.{list_room, ListCall, asked_list}
use pcsc_proxy_android.Pcsctest.Texts.{multi_string, Texts}
use pcsc_proxy_android.Pcsctest.{scard_e_insufficient_buffer}

pub found_in :
    {W : Type 0} (c d : Client W) (i : ℕ) (f : Found)
    → located f c ≡ done (some i) c
    → located f d ≡ done (some i) d
found_in c d i f e = ground arith

-- what the library's function `f` answers when it is asked for the length, and then for the list with
-- as much room as it has said
abbrev pub size_asked : {P : Type 0} → ListCall P → P → ClientContext → ℕ → P × ℕ × Answer
size_asked f p x room = asked_list f p x false room

abbrev pub list_asked : {P : Type 0} → ListCall P → P → ClientContext → ℕ → P × ℕ × Answer
list_asked f p x room = let q = size_asked f p x room in asked_list f q.0 x true (word q.2.size)

-- In state `p` the library lists `names` in the context `x`: asked for the length, it answers with
-- success or that the buffer is too small; asked for the list, it gives it, and it fits a message.
pub record Reports {P : Type 0} (f : ListCall P) (p : P) (x : ClientContext) (room : ℕ)
    (names : List (List ℕ)) : Type 0 where
  pub sized :
      (word (size_asked f p x room).1 ≡ 0)
      ⊎ (word (size_asked f p x room).1 ≡ scard_e_insufficient_buffer)
  pub room_small : word (size_asked f p x room).2.size < 2147483648
  pub given : word (list_asked f p x room).1 ≡ 0
  pub laid_out : (list_asked f p x room).2.bytes ≡ multi_string names
  pub measured : (list_asked f p x room).2.size ≡ length (multi_string names)
  pub fitting : length (multi_string names) < list_room
  pub texts : Texts names

module _ {P : Type 0} (env : Environment) (ready : env.mutex_rv ≡ 0) where
  -- An exchange with the service leaves the context as it is.
  unfoldable pub exchanged-OnContext :
      (id : ℕ) (x : ClientContext) (c : Client (Service P)) (p : P)
      → OnContext env id x c
      → OnContext env id x (exchanged c p)
  exchanged-OnContext id x c p h = record {
    slot = h.slot;
    below = h.below;
    table = h.table;
    contexts = h.contexts;
    unlocked = h.unlocked;
    found =
        find_context_eq env ready (exchanged c p) h.table id h.unlocked h.contexts
        ∙ found_in c (exchanged c p) h.slot
            (find_slot context_id h.table (slot_number pp_context_magic id))
            (sym (find_context_eq env ready c h.table id h.unlocked h.contexts) ∙ h.found);
    at_slot = h.at_slot;
    number = h.number;
    tls = h.tls;
    chosen = h.chosen;
    session = h.session;
    connected = h.connected;
    secured = h.secured;
    tls_there = h.tls_there;
  }
