-- ===== src/Link/Calls.antt =====
-- The calls whose answer is one word, from the application's argument to the library and back.
use pcsc_proxy_android.Prelude.{
  ℕ, ◌+◌, ◌%◌, ◌^◌, ◌≤◌, ◌<◌, ◌≡◌, refl, ◌∙◌, ap, inr, none, some, arith,
}
use pcsc_proxy_android.Memory.{Bytes, load32, store32}
use pcsc_proxy_android.Memory.Laws.{load32-store32, load32-store32_apart}
use pcsc_proxy_android.Message.Layout.{header_type, max_message_len}
use pcsc_proxy_android.Message.Fields.{
  disconnect_card, disconnect_disposition, disconnect_rv, begin_card, begin_rv, end_card,
  end_disposition, end_rv, cancel_card, cancel_rv,
}
use pcsc_proxy_android.Message.Command.{Command}
use pcsc_proxy_android.Server.Pcsc.{Pcsc, sign_extend}
use pcsc_proxy_android.Server.Handlers.{
  handle_disconnect, handle_begin_transaction, handle_end_transaction, handle_cancel_transaction,
  handle_cancel,
}
use pcsc_proxy_android.Server.Dispatch.{handle}
use pcsc_proxy_android.Server.Loop.{arrived, msg_len}
use pcsc_proxy_android.Client.State.{ClientContext, CardContext, Client, Tls, Environment, done, M}
use pcsc_proxy_android.Client.Tables.{pp_find_card}
use pcsc_proxy_android.Client.Exchange.{Network, context_at, card_at}
use pcsc_proxy_android.Client.Calls.{request, exchange_rv, exchange_rv-done, with_card-done}
use pcsc_proxy_android.Client.Calls.Card.{
  scard_disconnect, scard_begin_transaction, scard_end_transaction, scard_cancel_transaction,
  scard_cancel,
}
use pcsc_proxy_android.Link.{Service, direct, answer-handle, exchange_direct, fits-accepted}
use pcsc_proxy_android.Link.Words.{
  load32-arrived, arrived_byte, IsRequest, request-IsRequest, store32-IsRequest, answered_word,
  answered_len,
}

-- What reaches the library of a word that a client puts into a message.
abbrev pub word : ℕ → ℕ
word v = v % 2 ^ 32

-- The client after an exchange: only the service's side has changed, and it stands at `p`.
abbrev pub exchanged : {P : Type 0} → Client (Service P) → P → Client (Service P)
exchanged c p = record c { world = record { library = p; stack = c.world.stack; reply = none } }

-- The id leads to the card `k`, whose context has a session.
pub record OnCard {P : Type 0} (env : Environment) (id : ℕ) (k : CardContext)
    (c : Client (Service P)) : Type 0 where
  pub slot : ℕ
  pub found : pp_find_card env id c ≡ done (some slot) c
  pub card : card_at slot c ≡ done k c
  pub tls : Tls
  pub chosen : c.tlsopts ≡ some tls
  pub context : ClientContext
  pub owner : context_at k.client_context c ≡ done context c
  pub session : ℕ
  pub connected : context.tls_session ≡ some session

-- A call that carries words to the library and brings its result back.
pub data CardCall : Type 0 where
  beginning cancelling_transaction cancelling : CardCall
  disconnecting ending : (disposition : ℕ) → CardCall

module _ {P : Type 0} (lib : Pcsc P) (env : Environment) (net : Network (Service P)) where
  abbrev pub run_call : CardCall → ℕ → M (Service P) ℕ
  run_call beginning id = scard_begin_transaction env net (λ t. direct lib) id
  run_call cancelling_transaction id = scard_cancel_transaction env net (λ t. direct lib) id
  run_call cancelling id = scard_cancel env net (λ t. direct lib) id
  run_call (disconnecting d) id = scard_disconnect env net (λ t. direct lib) id d
  run_call (ending d) id = scard_end_transaction env net (λ t. direct lib) id d

  -- What the library at the other end is asked, for the handle that the card notes; but `SCardCancel`
  -- passes on the number that the application knows the card by.
  abbrev pub library_call : CardCall → (id handle : ℕ) → P → P × ℕ
  library_call beginning id handle p = lib.begin_transaction p (sign_extend (word handle))
  library_call cancelling_transaction id handle p = lib.cancel p (sign_extend (word handle))
  library_call cancelling id handle p = lib.cancel p (sign_extend (word id))
  library_call (disconnecting d) id handle p = lib.disconnect p (sign_extend (word handle)) (word d)
  library_call (ending d) id handle p = lib.end_transaction p (sign_extend (word handle)) (word d)

  pub word_reply :
      (m : Bytes) (cmd : Command) (n rv : ℕ) (c : Client (Service P)) (i s : ℕ) (x : ClientContext)
      (g : Tls) (r : P × ℕ)
      → IsRequest cmd n m
      → 5 ≤ rv
      → rv + 4 ≤ n
      → n < max_message_len
      → c.tlsopts ≡ some g
      → context_at i c ≡ done x c
      → x.tls_session ≡ some s
      → handle lib cmd c.world.library (arrived c.world.stack m)
        ≡ (r.0, store32 (arrived c.world.stack m) rv r.1)
      → exchange_rv net (λ t. direct lib) i m rv c ≡ done (word r.1) (exchanged c r.0)
  word_reply m cmd n rv c i s x g r q lo hi u a d e h =
      exchange_rv-done net (λ t. direct lib) i m
        (arrived m (store32 (arrived c.world.stack m) rv r.1)) rv c (exchanged c r.0)
        (exchange_direct lib net g c i s x m (store32 (arrived c.world.stack m) rv r.1) r.0
          (fits-accepted m (omega (arith, q.size)) (omega (arith, q.size)))
          (fits-accepted (store32 (arrived c.world.stack m) rv r.1) (omega (arith, q.size, len))
            (omega (arith, q.size, len)))
          a d e
          (answer-handle lib cmd c.world.library (arrived c.world.stack m)
              (arrived_byte c.world.stack m header_type (omega (arith, q.size)) ∙ q.kind)
            ∙ ap some h))
      ∙ ap (λ v. done v (exchanged c r.0))
          (answered_word c.world.stack m rv r.1 lo (omega (arith, q.size)))
    where
      len : msg_len (store32 (arrived c.world.stack m) rv r.1) ≡ msg_len m
      len = answered_len c.world.stack m rv r.1 lo (omega (arith, q.size))

  -- The request of a card call has come to the service: the words in it are those put there.
  card_word :
      (stack m : Bytes) (cmd : Command) (n o v : ℕ)
      → IsRequest cmd n (store32 m o v)
      → o + 4 ≤ n
      → load32 (arrived stack (store32 m o v)) o ≡ word v
  card_word stack m cmd n o v q h =
      load32-arrived stack (store32 m o v) o (omega (arith, q.size)) ∙ load32-store32 m o v

  card_word_below :
      (stack m : Bytes) (cmd : Command) (n o v o' v' : ℕ)
      → IsRequest cmd n (store32 (store32 m o v) o' v')
      → o + 4 ≤ o'
      → o' + 4 ≤ n
      → load32 (arrived stack (store32 (store32 m o v) o' v')) o ≡ word v
  card_word_below stack m cmd n o v o' v' q h b =
      load32-arrived stack (store32 (store32 m o v) o' v') o (omega (arith, q.size))
      ∙ load32-store32_apart (store32 m o v) o' o v' (inr h)
      ∙ load32-store32 m o v

  one_word :
      (cmd : Command) (n o v : ℕ)
      → n < 2 ^ 32
      → 5 ≤ o
      → IsRequest cmd n (store32 (request cmd n) o v)
  one_word cmd n o v h l = store32-IsRequest cmd n (request cmd n) o v l (request-IsRequest cmd n h)

  two_words :
      (cmd : Command) (n o v o' v' : ℕ)
      → n < 2 ^ 32
      → 5 ≤ o
      → 5 ≤ o'
      → IsRequest cmd n (store32 (store32 (request cmd n) o v) o' v')
  two_words cmd n o v o' v' h l l' =
      store32-IsRequest cmd n (store32 (request cmd n) o v) o' v' l' (one_word cmd n o v h l)

  -- A handler that passes on one word, and one that passes on two.
  call_one :
      {id : ℕ} {k : CardContext} {c : Client (Service P)} (h : OnCard env id k c) (cmd : Command)
      (n o v rv : ℕ) (f : ℕ → P → P × ℕ)
      → n < max_message_len
      → (5 ≤ o) × (o + 4 ≤ n) × (5 ≤ rv) × (rv + 4 ≤ n)
      → ((x : Bytes) (p : P)
          → handle lib cmd p x ≡ ((f (load32 x o) p).0, store32 x rv (f (load32 x o) p).1))
      → let r = f (word v) c.world.library in
        exchange_rv net (λ t. direct lib) k.client_context (store32 (request cmd n) o v) rv c
        ≡ done (word r.1) (exchanged c r.0)
  call_one {c} h cmd n o v rv f b l e =
      word_reply (store32 (request cmd n) o v) cmd n rv c _ h.session h.context h.tls
        (f (word v) c.world.library) q (omega arith) (omega arith) b h.chosen h.owner h.connected
        (e x c.world.library
          ∙ ap (λ w. ((f w c.world.library).0, store32 x rv (f w c.world.library).1))
              (card_word c.world.stack (request cmd n) cmd n o v q (omega arith)))
    where
      q : IsRequest cmd n (store32 (request cmd n) o v)
      q = one_word cmd n o v (omega arith) (omega arith)

      x : Bytes
      x = arrived c.world.stack (store32 (request cmd n) o v)

  call_two :
      {id : ℕ} {k : CardContext} {c : Client (Service P)} (h : OnCard env id k c) (cmd : Command)
      (n o v o' v' rv : ℕ) (f : ℕ → ℕ → P → P × ℕ)
      → n < max_message_len
      → (5 ≤ o) × (o + 4 ≤ o') × (o' + 4 ≤ n) × (5 ≤ rv) × (rv + 4 ≤ n)
      → ((x : Bytes) (p : P)
          → handle lib cmd p x
            ≡ ((f (load32 x o) (load32 x o') p).0, store32 x rv (f (load32 x o) (load32 x o') p).1))
      → let r = f (word v) (word v') c.world.library in
        exchange_rv net
          (λ t. direct lib)
          k.client_context
          (store32 (store32 (request cmd n) o v) o' v')
          rv
          c
        ≡ done (word r.1) (exchanged c r.0)
  call_two {c} h cmd n o v o' v' rv f b l e =
      word_reply (store32 (store32 (request cmd n) o v) o' v') cmd n rv c _ h.session h.context
        h.tls (f (word v) (word v') c.world.library) q (omega arith) (omega arith) b h.chosen
        h.owner h.connected
        (e x c.world.library
          ∙ ap
              (λ w. (
                (f w (load32 x o') c.world.library).0,
                store32 x rv (f w (load32 x o') c.world.library).1,
              ))
              (card_word_below c.world.stack (request cmd n) cmd n o v o' v' q (omega arith)
                (omega arith))
          ∙ ap
              (λ w.
                ((f (word v) w c.world.library).0, store32 x rv (f (word v) w c.world.library).1))
              (card_word c.world.stack (store32 (request cmd n) o v) cmd n o' v' q (omega arith)))
    where
      q : IsRequest cmd n (store32 (store32 (request cmd n) o v) o' v')
      q = two_words cmd n o v o' v' (omega arith) (omega arith) (omega arith)

      x : Bytes
      x = arrived c.world.stack (store32 (store32 (request cmd n) o v) o' v')

  -- `SCardBeginTransaction`, `SCardEndTransaction`, `SCardDisconnect`, `SCardCancelTransaction`
  -- and `SCardCancel` on a card whose context is connected to the service: the call returns, in
  -- 32 bits, what the library at the other end returns for the handle that the card notes (for
  -- `SCardCancel`: for the number that the application knows the card by), that library has been
  -- called once, and nothing else of the client has changed.
  pub run_call-library_call :
      (call : CardCall) (id : ℕ) (k : CardContext) (c : Client (Service P))
      → OnCard env id k c
      → let r = library_call call id k.pcsc_handle c.world.library in
        run_call call id c ≡ done (word r.1) (exchanged c r.0)
  unfolding scard_begin_transaction scard_cancel_transaction scard_cancel scard_disconnect
      scard_end_transaction handle handle_begin_transaction handle_cancel_transaction handle_cancel
      handle_disconnect handle_end_transaction
  run_call-library_call beginning id k c h =
      with_card-done env id h.slot _ _ k c h.found h.card
      ∙ call_one h Command.begin_transaction 13 begin_card k.pcsc_handle begin_rv
          (λ w p. lib.begin_transaction p (sign_extend w)) (omega arith) (omega arith) (λ x p. refl)
  run_call-library_call cancelling_transaction id k c h =
      with_card-done env id h.slot _ _ k c h.found h.card
      ∙ call_one h Command.cancel_transaction 13 cancel_card k.pcsc_handle cancel_rv
          (λ w p. lib.cancel p (sign_extend w)) (omega arith) (omega arith) (λ x p. refl)
  run_call-library_call cancelling id k c h =
      with_card-done env id h.slot _ _ k c h.found h.card
      ∙ call_one h Command.cancel 13 cancel_card id cancel_rv (λ w p. lib.cancel p (sign_extend w))
          (omega arith) (omega arith) (λ x p. refl)
  run_call-library_call (disconnecting d) id k c h =
      with_card-done env id h.slot _ _ k c h.found h.card
      ∙ call_two h Command.disconnect 17 disconnect_card k.pcsc_handle disconnect_disposition d
          disconnect_rv (λ w v p. lib.disconnect p (sign_extend w) v) (omega arith) (omega arith)
          (λ x p. refl)
  run_call-library_call (ending d) id k c h =
      with_card-done env id h.slot _ _ k c h.found h.card
      ∙ call_two h Command.end_transaction 17 end_card k.pcsc_handle end_disposition d end_rv
          (λ w v p. lib.end_transaction p (sign_extend w) v) (omega arith) (omega arith)
          (λ x p. refl)
