-- ===== src/Link/Listed.antt =====
-- The whole of `SCardListReaders`: what the application and the library see of it.
use pcsc_proxy_android.Prelude.{
  ℕ, ◌≤◌, ◌<◌, ◌≡◌, refl, ◌∙◌, ap, Bool, true, false, some, arith, length, ◌==◌,
}
use pcsc_proxy_android.Memory.{Bytes}
use native.Mathlib.Nat.{le_trans}
use pcsc_proxy_android.Message.Layout.{max_message_len}
use pcsc_proxy_android.Message.Command.{Command}
use pcsc_proxy_android.Server.Pcsc.{Pcsc, Answer, IsBounded, sign_extend}
use pcsc_proxy_android.Server.Lengths.{clamp}
use pcsc_proxy_android.Server.Loop.{arrived, msg_len}
use pcsc_proxy_android.Client.State.{ClientContext, Client, Environment, done, bind-done}
use pcsc_proxy_android.Client.Exchange.{Network, context_at, pp_exchange_msg}
use pcsc_proxy_android.Client.Calls.{with_context-done}
use pcsc_proxy_android.Client.Calls.Buffers.{scard_autoallocate}
use pcsc_proxy_android.Client.Calls.Lists.{
  list_request, list_call, scard_list_readers, scard_list_reader_groups,
}
use pcsc_proxy_android.Link.{Service, direct, answer-handle, exchange_direct, fits-accepted}
use pcsc_proxy_android.Link.Calls.{word, exchanged}
use pcsc_proxy_android.Link.Release.{OnContext, at_table}
use pcsc_proxy_android.Link.Readers.{
  list_room, list_kind, IsListing, list_request-IsListing, arrived-IsListing, ListCall, asked_list,
  Lists, listing, group_listing, list_answer, handle_list_readers-Lists, handle_list_groups-Lists,
  IsListed, list_answer-IsListed, arrived-IsListed, listed, reply-listed,
}

clamp_le : (n : ℕ) → clamp list_room n ≤ n
clamp_le n = ground arith

not_autoallocate : (n : ℕ) → n < 2147483648 → (n == scard_autoallocate) ≡ false
not_autoallocate n h = ground arith

sizes :
    (given : Bool) (res : ℕ) (a : Answer) (m : Bytes)
    → IsListed given res a m
    → (given ≡ true → (a.size ≡ length a.bytes) × (a.size < list_room))
    → (5 ≤ msg_len m) × (msg_len m < max_message_len)
sizes true res a m t e = (omega (arith, t.size), omega (arith, t.size, (e refl).1))
sizes false res a m t e = (omega (arith, t.size), omega (arith, t.size))

module _ {P : Type 0} (lib : Pcsc P) (env : Environment) (net : Network (Service P)) where
  list_call-listed :
      (cmd : Command) (f : ListCall P)
      → Lists lib cmd f
      → ((p : P) (context room : ℕ) → length (f p context true room).2.bytes ≤ room)
      → (id n : ℕ) (x : ClientContext) (given : Bool) (c : Client (Service P))
      → OnContext env id x c
      → n < 2147483648
      → let r = asked_list f c.world.library x given n in
        (given ≡ true → (r.2.size ≡ length r.2.bytes) × (r.2.size < list_room))
        → list_call env net (λ k. direct lib) (list_kind cmd) id given (some n) c
          ≡ done (listed r given) (exchanged c r.0)
  unfolding list_call
  list_call-listed cmd f handled fits id n x given c h u e =
      with_context-done env id h.slot _ _ x c h.found here
      ∙ rw (not_autoallocate n u) (
          bind-done (pp_exchange_msg net (λ k. direct lib) h.slot m) _ (some (arrived m y)) c
            (exchanged c r.0)
            (exchange_direct lib net h.tls c h.slot h.session x m y r.0
              (fits-accepted m (omega (arith, q.size)) (omega (arith, q.size)))
              (fits-accepted y (sized.0) (sized.1)) h.chosen here h.connected
              (answer-handle lib cmd c.world.library z t.kind
                ∙ ap some (handled c.world.library z x given n t))))
      ∙ ap (λ o. done o (exchanged c r.0))
          (reply-listed cmd r given n (arrived m y) (arrived-IsListed m y given r.1 r.2 a)
            (λ g. (omega (arith, (e g).0, room_kept given g), (e g).1)))
    where
      m : Bytes
      m = list_request (list_kind cmd) x given n

      z : Bytes
      z = arrived c.world.stack m

      r : P × ℕ × Answer
      r = asked_list f c.world.library x given n

      y : Bytes
      y = list_answer z given r.1 r.2

      room_kept : (b : Bool) → b ≡ true → length (asked_list f c.world.library x b n).2.bytes ≤ n
      room_kept true g =
          le_trans (fits c.world.library (sign_extend (word x.pcsc_context)) (clamp list_room n))
            (clamp_le n)
      room_kept false g = cc

      here : context_at h.slot c ≡ done x c
      here = at_table c h.table h.slot x h.contexts h.at_slot

      q : IsListing cmd x given n m
      q = list_request-IsListing cmd x given n u

      t : IsListing cmd x given n z
      t = arrived-IsListing c.world.stack m cmd x given n q

      a : IsListed given r.1 r.2 y
      a = list_answer-IsListed z given r.1 r.2 t.size e

      sized : (5 ≤ msg_len y) × (msg_len y < max_message_len)
      sized = sizes given r.1 r.2 y a e

module _ {P : Type 0} (lib : Pcsc P) (fits : IsBounded lib) (env : Environment)
    (net : Network (Service P)) (id n : ℕ) (x : ClientContext) (given : Bool)
    (c : Client (Service P)) (h : OnContext env id x c) (u : n < 2147483648) where
  -- `SCardListReaders` on a connected context, for a buffer of less than 2 GiB or a question for the
  -- length alone: the library at the other end is asked once, in the context that it knows, for at
  -- most as much as fits the buffer and a message; the application gets its result and exactly the
  -- bytes of the list or, without a buffer, the length; nothing else of the client changes. A list
  -- that is given is one that the library reports the length of, and shorter than a message. With a
  -- buffer the length stored at `pcchReaders` is never changed.
  pub scard_list_readers-listed :
      let r = listing lib c.world.library x given n in
      (given ≡ true → (r.2.size ≡ length r.2.bytes) × (r.2.size < list_room))
      → scard_list_readers env net (λ k. direct lib) id given (some n) c
        ≡ done (listed r given) (exchanged c r.0)
  unfolding scard_list_readers
  scard_list_readers-listed e =
      list_call-listed lib env net Command.list_readers lib.list_readers
        (handle_list_readers-Lists lib) fits.readers_fit id n x given c h u e

  -- `SCardListReaderGroups` does the same for the list of groups.
  pub scard_list_reader_groups-listed :
      let r = group_listing lib c.world.library x given n in
      (given ≡ true → (r.2.size ≡ length r.2.bytes) × (r.2.size < list_room))
      → scard_list_reader_groups env net (λ k. direct lib) id given (some n) c
        ≡ done (listed r given) (exchanged c r.0)
  unfolding scard_list_reader_groups
  scard_list_reader_groups-listed e =
      list_call-listed lib env net Command.list_groups lib.list_reader_groups
        (handle_list_groups-Lists lib) fits.groups_fit id n x given c h u e
